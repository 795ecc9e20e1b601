-- ===== src/Legacy/Main/Start/Target.antt =====
-- The device that the older server's `main` asks for: the texts of its arguments.
use lazy_tcp.Prelude.{
  ℕ, ◌+◌, ◌-◌, ◌≤◌, ◌<◌, ◌≡◌, refl, arith, Option, none, some, List, [], ltb, leb, if◌then◌else◌,
  Returns, ap,
}
use lazy_tcp.Buf.{Buf, copy, with_bytes}
use lazy_tcp.Buf.Access.{memcpy-ok}
use lazy_tcp.Legacy.Device.{Kernel, c_string}
use lazy_tcp.Legacy.Device.Texts.{c_string_agree}
use lazy_tcp.Legacy.Main.Start.{Arguments, Environment, zeroed, copy_argument}

-- the first 16 bytes of an argument, up to a NUL
abbrev pub argument : Buf → List ℕ
argument arg = c_string arg.at 16 0

abbrev pub name_asked : Arguments → List ℕ
name_asked a = if leb 3 a.argc then argument a.dev_arg else []

-- the name of the device, where the descriptor and the name are given
abbrev pub given : Option ℕ → Option (List ℕ) → Option (List ℕ)
given none name = none
given (some fd) name = name

abbrev pub device_name : Kernel → (flags : ℕ) → (asked : List ℕ) → Option (List ℕ)
device_name k flags asked = given k.clone_fd (k.ioctl flags asked)

abbrev pub paired : List ℕ → Option (List ℕ) → Option (List ℕ × List ℕ)
paired ip_addr none = none
paired ip_addr (some name) = some (ip_addr, name)

-- the address and the name of the device that is bound, where `main` gets so far
abbrev pub target : Environment → Arguments → Option (List ℕ × List ℕ)
target e a = if ltb a.argc 2 then none else elim e.ip_mem [
  | none ↦ none
  | some ip ↦ elim e.dev_mem [
    | none ↦ none
    | some dev ↦ paired (argument a.ip_arg) (device_name e.kernel e.flags (name_asked a))
  ]
]

pub c_string-zeroed : c_string (zeroed 17).at 17 0 ≡ []
unfolding c_string
c_string-zeroed = refl

-- A copied argument reads as the text of its first 16 bytes.
pub copied_argument :
    (arg : Buf)
    → 16 ≤ arg.size
    → Returns (copy_argument arg) (λ b. c_string b.at b.size 0 ≡ argument arg)
unfolding copy_argument
copied_argument arg long =
    let f = copy (zeroed 17).at 0 arg.at 0 16 in
    let same : (j : ℕ) → 0 ≤ j → j < 0 + 16 → f j ≡ arg.at j = λ j _ less.
      let place : 0 + (j - 0) ≡ j = omega arith in
      (unfold copy in ground (arith, ap arg.at place)) in
    let end : f (0 + 16) ≡ 0 = (unfold copy in ground arith) in
    (
      with_bytes (zeroed 17) f,
      memcpy-ok (zeroed 17) 0 arg 0 16 (omega arith) long,
      c_string_agree f arg.at 16 0 same end,
    )
