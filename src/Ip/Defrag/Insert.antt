-- ===== src/Ip/Defrag/Insert.antt =====
-- Where a fragment goes in its context's list.
use mathlib.Core.List.{Permᴰ}
use mathlib.Core.List.Permᴰ as Perm
use mu_quinet.Prelude.{
  ℕ, ◌≤◌, ◌<◌, ◌≡◌, refl, ◌↔◌, List, [], ◌∷◌, true, false, Bool-cases, inl, inr, none, some, arith,
  ltb, subst,
}
use mathlib.Core.Option.{some-injective}
use mu_quinet.Net.Buffer.{SocketBuffer}
use mu_quinet.Ip.Defrag.{insert_before, insert_frag, offset, ours_off, ready, contiguous, last_frag}

-- A new element before the second one of a list.
Perm-second :
    {l m : List SocketBuffer} (b c : SocketBuffer) → Permᴰ (b ∷ l) m → Permᴰ (b ∷ c ∷ l) (c ∷ m)
Perm-second b c d = Permᴰ.trans (Permᴰ.swap refl refl) (Permᴰ.cons refl d)

insert_before-Perm :
    (ours : ℕ) (b : SocketBuffer) (l : List SocketBuffer) → Permᴰ (b ∷ l) (insert_before ours b l)
unfolding insert_before
insert_before-Perm ours b [] = Perm.refl (b ∷ [])
insert_before-Perm ours b (c ∷ l) = elim (Bool-cases (ltb (offset c) ours)) [
  | inl e ↦ rw e (Perm-second b c (insert_before-Perm ours b l))
  | inr e ↦ rw e (Perm.refl (b ∷ c ∷ l))
]

-- Whatever the offsets are, a fragment that is put in loses no other and comes in once.
pub insert_frag-Perm :
    (b : SocketBuffer) (l l' : List SocketBuffer) → insert_frag b l ≡ some l' → Permᴰ (b ∷ l) l'
unfolding insert_frag
insert_frag-Perm b [] l' e = subst (Permᴰ (b ∷ [])) (some-injective _ _ e) (Perm.refl (b ∷ []))
insert_frag-Perm b (f ∷ l) l' e = elim (Bool-cases (ltb (offset b) (offset f))) [
  | inl t ↦ subst (Permᴰ (b ∷ f ∷ l)) (ground (arith, e, t)) (Perm.refl (b ∷ f ∷ l))
  | inr t ↦ elim (Bool-cases (ltb (offset f) (ours_off b))) [
    | inl s ↦
        subst (Permᴰ (b ∷ f ∷ l)) (ground (arith, e, t, s))
          (Perm-second b f (insert_before-Perm (ours_off b) b l))
    | inr s ↦ absurd (ground (arith, e, t, s))
  ]
]

-- Putting a fragment in goes through a null pointer exactly when it does not come before the first
-- fragment there, by its offset, and its offset field, without the change of byte order, is not
-- above the first fragment's offset.
pub insert_frag-none :
    (b f : SocketBuffer) (l : List SocketBuffer)
    → (insert_frag b (f ∷ l) ≡ none) ↔ (offset f ≤ offset b) × (ours_off b ≤ offset f)
unfolding insert_frag
insert_frag-none b f l = ground arith

-- A fragment that belongs between two that came before it, but whose offset field without the change
-- of byte order is above the second one's offset, goes to the end, and the three are not taken for
-- a whole packet.
pub insert_frag_misplaced :
    (b f c : SocketBuffer)
    → offset f < offset b
    → offset b < offset c
    → offset c < ours_off b
    → ready (f ∷ b ∷ c ∷ []) ≡ true
    → (insert_frag b (f ∷ c ∷ []) ≡ some (f ∷ c ∷ b ∷ [])) × (ready (f ∷ c ∷ b ∷ []) ≡ false)
unfolding insert_frag insert_before ready contiguous last_frag
insert_frag_misplaced b f c x y z whole = ground arith
