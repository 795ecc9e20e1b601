-- ===== src/Tcb/Ids.antt =====
-- The identity of a block on the heap.
use lazy_tcp.Prelude.{◌≡◌, ◌≢◌, ◌↔◌, refl, arith, true, false, Option, none, some, ◌==◌}
use lazy_tcp.Prelude.{ok}
use lazy_tcp.Tcb.{Ptr, Heap, ConId, Tcb, write, load, free, tcb_id_match}

abbrev pub id_at : Heap → Ptr → Option ConId
id_at h p = elim (h p) [ none ↦ none | some t ↦ some t.id ]

-- `tcb_id_match` holds exactly if its two identities are equal.
pub tcb_id_match_iff : (a b : ConId) → (tcb_id_match a b ≡ true) ↔ (a ≡ b)
unfolding tcb_id_match
tcb_id_match_iff a b = (λ h. ground arith, λ e. ground arith)

pub tcb_id_match-ne : (a b : ConId) → a ≢ b → tcb_id_match a b ≡ false
tcb_id_match-ne a b ne = ground (arith, tcb_id_match_iff a b)

module _ (h : Heap) (p : Ptr) {a : ConId} (here : id_at h p ≡ some a) where
  pub block_at : (t : Tcb) × (h p ≡ some t) × (t.id ≡ a)
  block_at = go (h p) refl
    where
      go : (o : Option Tcb) → h p ≡ o → (t : Tcb) × (h p ≡ some t) × (t.id ≡ a)
      go none e = absurd (ground arith)
      go (some t) e = (t, e, ground arith)

module _ (h : Heap) (p : Ptr) {t : Tcb} (at : h p ≡ some t) where
  pub load-ok : load h p ≡ ok t
  unfolding load
  load-ok = rw (at, load)

  pub free-ok : free h p ≡ ok (write h p none)
  unfolding free
  free-ok = rw (at, free)

  pub id_at-ok : id_at h p ≡ some t.id
  id_at-ok = rw (at, id_at)

-- A write at one address changes the identity there alone.
pub id_at-write :
    (h : Heap) (p : Ptr) (c : Option Tcb) (q : Ptr) → q ≢ p → id_at (write h p c) q ≡ id_at h q
id_at-write h p c q ne = let e : (q == p) ≡ false = ground arith in rw (e, id_at)
