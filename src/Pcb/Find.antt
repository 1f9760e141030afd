-- ===== src/Pcb/Find.antt =====
-- Which block `Pcbs::find` returns.
use mu_quinet.Prelude.{
  ℕ, ◌<◌, ◌≡◌, refl, ap, ◌⊎◌, inl, inr, List, [], ◌∷◌, ◌++◌, Option, none, some, arith, All,
  Option-cases, ◌∙◌,
}
use mu_quinet.Pcb.{Pcb, Flow, accumulate, visit, find_from, find}

-- A block takes a packet if its local port is the packet's, and each other part is unset or the
-- packet's.
pub record Takes (p : Pcb) (k : Flow) : Type 0 where
  pub lport : p.lport ≡ k.lport
  pub fport : (p.fport ≡ 0) ⊎ (p.fport ≡ k.fport)
  pub faddr : (p.faddr ≡ 0) ⊎ (p.faddr ≡ k.faddr)
  pub laddr : (p.laddr ≡ 0) ⊎ (p.laddr ≡ k.laddr)

accumulate-Takes :
    (p : Pcb) (k : Flow) {n m : ℕ} → accumulate p k ≡ some (n, m) → Takes p k × (m < n)
unfolding accumulate
accumulate-Takes p k h = ground arith

accumulate-not-Takes : (p : Pcb) (k : Flow) → accumulate p k ≡ none → ¬ Takes p k
unfolding accumulate
accumulate-not-Takes p k h t = ground arith

module _ (lock : ℕ → Option Pcb) (k : Flow) where
  -- The block at an address is alive and takes the packet.
  abbrev pub TakesAt : ℕ → Type 0
  TakesAt a = (p : Pcb) × (lock a ≡ some p) × Takes p k

  abbrev Visited : Option ℕ → ℕ → Type 0
  Visited r a = ((visit lock k r a ≡ some a) × TakesAt a) ⊎ ((visit lock k r a ≡ r) × (¬ TakesAt a))

  visit_live : (r : Option ℕ) (a : ℕ) (p : Pcb) → lock a ≡ some p → Visited r a
  unfolding visit
  visit_live r a p e = elim (Option-cases (accumulate p k)) [
    | inl h ↦ inr (ground arith, λ t. accumulate-not-Takes p k h (rw (same p t.0 e t.1) t.2))
    | inr ((n, m), h) ↦ let (t, lt) = accumulate-Takes p k h in inl (ground (arith, lt), (p, e, t))
  ]
    where
      same : (p q : Pcb) → lock a ≡ some p → lock a ≡ some q → p ≡ q
      same p q e f = cc

  visit-Visited : (r : Option ℕ) (a : ℕ) → Visited r a
  unfolding visit
  visit-Visited r a = elim (Option-cases (lock a)) [
    | inl e ↦ inr (rw (e, visit), λ t. cc (t.1))
    | inr (p, e) ↦ visit_live r a p e
  ]

  -- The last address of a list that takes the packet, or the one given.
  abbrev IsLast : Option ℕ → List ℕ → Option ℕ → Type 0
  IsLast r c out =
      ((out ≡ r) × All (λ a. ¬ TakesAt a) c)
      ⊎ ((a : ℕ) × (before after : List ℕ) × (c ≡ before ++ a ∷ after)
          × TakesAt a
          × All (λ b. ¬ TakesAt b) after
          × (out ≡ some a))

  find_from-IsLast : (r : Option ℕ) (c : List ℕ) → IsLast r c (find_from lock k r c)
  unfolding find_from
  find_from-IsLast r [] = inl (refl, tt)
  find_from-IsLast r (a ∷ c) = elim (find_from-IsLast (visit lock k r a) c) [
    | inr (b, before, after, e, t, all, o) ↦ inr (b, a ∷ before, after, ap (◌∷◌ a) e, t, all, o)
    | inl (o, all) ↦ elim (visit-Visited r a) [
      | inl (v, t) ↦ inr (a, [], c, refl, t, all, o ∙ v)
      | inr (v, n) ↦ inl (o ∙ v, (n, all))
    ]
  ]

  -- `find` returns nothing exactly when no live block takes the packet, and otherwise the last block
  -- of the list that takes it.
  pub find-IsLast :
      (c : List ℕ)
      → ((find lock c k ≡ none) × All (λ a. ¬ TakesAt a) c)
        ⊎ ((a : ℕ) × (before after : List ℕ) × (c ≡ before ++ a ∷ after)
            × TakesAt a
            × All (λ b. ¬ TakesAt b) after
            × (find lock c k ≡ some a))
  unfolding find
  find-IsLast c = find_from-IsLast none c
