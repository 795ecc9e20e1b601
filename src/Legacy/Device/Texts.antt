-- ===== src/Legacy/Device/Texts.antt =====
-- The texts of the device fit the memory that they are written to.
use lazy_tcp.Prelude.{
  ℕ, zero, suc, ◌+◌, ◌≤◌, ◌<◌, ◌≡◌, inl, inr, refl, arith, Bool, true, false, not, List, [], ◌∷◌,
  ◌++◌, ◌==◌, le→leb, if◌then◌else◌, ok, ap, ◌∙◌, Bool-cases,
}
use lazy_tcp.Legacy.Http.{codes, length}
use lazy_tcp.Legacy.Device.{
  Kernel, VirtualDevice, c_string, take, put_text, add_command, up_command, tun_init,
}

length_append : (xs ys : List ℕ) → length (xs ++ ys) ≡ length xs + length ys
unfolding length
length_append [] ys = omega arith
length_append (x ∷ xs) ys = omega (arith, length_append xs ys)

-- A text of at most `left` bytes.
pub length-c_string : (f : ℕ → ℕ) (left i : ℕ) → length (c_string f left i) ≤ left
unfolding c_string length
length-c_string f zero i = omega arith
length-c_string f (suc left) i =
    let rest = length-c_string f left (i + 1) in
    elim (Bool-cases (f i == 0)) [ inl end ↦ rw end (omega arith) | inr on ↦ rw on (omega arith) ]

-- Bytes that end with a NUL read as the text of those before it.
pub c_string_agree :
    (f g : ℕ → ℕ) (left i : ℕ)
    → ((j : ℕ) → i ≤ j → j < i + left → f j ≡ g j)
    → f (i + left) ≡ 0
    → c_string f (suc left) i ≡ c_string g left i
unfolding c_string
c_string_agree f g zero i same end = let e : (f i == 0) ≡ true = ground (arith, end) in rw e
c_string_agree f g (suc left) i same end =
    let here : f i ≡ g i = same i (omega arith) (omega arith) in
    let place : i + 1 + left ≡ i + suc left = omega arith in
    let rest =
      c_string_agree f g left (i + 1) (λ j a b. same j (omega arith) (omega arith))
        (ap f place ∙ end) in
    rw (here, rest)

pub take_all : (n : ℕ) (cs : List ℕ) → length cs ≤ n → take n cs ≡ cs
unfolding take length
take_all zero [] h = refl
take_all zero (c ∷ cs) h = absurd (omega arith)
take_all (suc n) [] h = refl
take_all (suc n) (c ∷ cs) h = ap (λ ds. c ∷ ds) (take_all n cs (omega arith))

pub put_text-ok : (room : ℕ) (cs : List ℕ) → length cs < room → put_text room cs ≡ ok cs
unfolding put_text
put_text-ok room cs h = rw (le→leb _ _ (let k : length cs + 1 ≤ room = omega arith in k))

-- whether both commands could be run, and those that were: the second only after the first
abbrev pub bound : Kernel → (ip_addr dev_name : List ℕ) → Bool × List (List ℕ)
bound k ip_addr dev_name =
    if k.system (add_command ip_addr dev_name)
    then (k.system (up_command dev_name), add_command ip_addr dev_name ∷ up_command dev_name ∷ [])
    else (false, add_command ip_addr dev_name ∷ [])

module _ (vd : VirtualDevice) (address : length vd.ip_addr ≤ 16)
    (name : length vd.dev_name ≤ 16) where
  add_command_fits :
      put_text 256 (add_command vd.ip_addr vd.dev_name) ≡ ok (add_command vd.ip_addr vd.dev_name)
  unfolding length
  add_command_fits = put_text-ok 256 (add_command vd.ip_addr vd.dev_name) (
      omega (
        arith,
        length_append (codes "ip addr add ") (vd.ip_addr ++ (codes " dev " ++ vd.dev_name)),
        length_append vd.ip_addr (codes " dev " ++ vd.dev_name),
        length_append (codes " dev ") vd.dev_name,
      ))

  up_command_fits : put_text 256 (up_command vd.dev_name) ≡ ok (up_command vd.dev_name)
  unfolding length
  up_command_fits = put_text-ok 256 (up_command vd.dev_name) (
      omega (
        arith,
        length_append (codes "ip link set ") (vd.dev_name ++ codes " up"),
        length_append vd.dev_name (codes " up"),
      ))

  -- `tun_init` runs the first command, and the second if that could be run; it fails if one could
  -- not be run.
  pub tun_init-ok :
      (k : Kernel)
      → tun_init k vd
        ≡ ok (not (bound k vd.ip_addr vd.dev_name).0, (bound k vd.ip_addr vd.dev_name).1)
  unfolding tun_init
  tun_init-ok k = elim (Bool-cases (k.system (add_command vd.ip_addr vd.dev_name))) [
    | inl runs ↦ rw (add_command_fits, up_command_fits, runs)
    | inr lost ↦ rw (add_command_fits, lost)
  ]
