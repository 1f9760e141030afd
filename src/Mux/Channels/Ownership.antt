-- ===== src/Mux/Channels/Ownership.antt =====
-- Each ReqRespChannel owns its channels alone, and every event of Mux keeps it so and ends.
use mu_quinet.Prelude.{
  ℕ, ◌≡◌, refl, sym, ◌∙◌, subst, List, [], ◌∷◌, ◌++◌, true, false, Bool-cases, inl, inr, Option,
  none, some, arith, ==→ne, ◌==◌, if◌then◌else◌,
}
use mathlib.Core.Bool.{true≢false}
use mathlib.Core.Option.{some-injective, none-ne-some}
use mu_quinet.Mux.Loop.{SelectableChannel, has_channel}
use mu_quinet.Mux.Loop.Agrees.{Nodup}
use mu_quinet.Mux.Channels.{ReqRespChannel, find_channel, without, with_watched}
use mu_quinet.Mux.Channels.Release.{own}

-- The objects' addresses, and what is alive.
abbrev pub Found : Type 0
Found = ℕ → Option ReqRespChannel

-- What a ReqRespChannel owns is alive and listed once, and no two own the same.
pub record Apart (store : ℕ → Option SelectableChannel) (rr : ℕ → Option ReqRespChannel)
    : Type 0 where
  pub alive :
      (a : ℕ) (ch : ReqRespChannel) (d : ℕ)
      → rr a ≡ some ch
      → has_channel d (own ch) ≡ true
      → (x : SelectableChannel) × (store d ≡ some x)
  pub once : (a : ℕ) (ch : ReqRespChannel) → rr a ≡ some ch → Nodup (own ch)
  pub apart :
      (a b : ℕ) (ch ch' : ReqRespChannel) (d : ℕ)
      → rr a ≡ some ch
      → rr b ≡ some ch'
      → has_channel d (own ch) ≡ true
      → has_channel d (own ch') ≡ true
      → a ≡ b

-- One object is made or changed, and the rest stays.
pub Apart-changed :
    (s s' : ℕ → Option SelectableChannel) (f f' : ℕ → Option ReqRespChannel) (a : ℕ)
    (ch : ReqRespChannel)
    → Apart s f
    → ((b : ℕ) → f' b ≡ (if b == a then some ch else f b))
    → Nodup (own ch)
    → ((d : ℕ) → has_channel d (own ch) ≡ true → (x : SelectableChannel) × (s' d ≡ some x))
    → ((b : ℕ) (x : ReqRespChannel) (d : ℕ)
        → (b == a) ≡ false
        → f b ≡ some x
        → has_channel d (own x) ≡ true
        → (has_channel d (own ch) ≡ false) × (y : SelectableChannel) × (s' d ≡ some y))
    → Apart s' f'
Apart-changed s s' f f' a ch p e n h k = record {
  alive = λ b x d t m. elim (Bool-cases (b == a)) [
    | inl q ↦
        let same : ch ≡ x = some-injective _ _ (ground (arith, q, e b, t)) in
        h d (subst (λ y. has_channel d (own y) ≡ true) (sym same) m)
    | inr q ↦ let (_, y, z) = k b x d q (ground (arith, q, e b, t)) m in (y, z)
  ];
  once = λ b x t. elim (Bool-cases (b == a)) [
    | inl q ↦
        let same : ch ≡ x = some-injective _ _ (ground (arith, q, e b, t)) in
        subst (λ y. Nodup (own y)) same n
    | inr q ↦ p.once b x (ground (arith, q, e b, t))
  ];
  apart = λ b c x y d t u m l. elim (Bool-cases (b == a)) [
    | inl q ↦ elim (Bool-cases (c == a)) [
      | inl r ↦ ground (arith, q, r)
      | inr r ↦ absurd (true≢false (not-both b c x y d q r t u m l))
    ]
    | inr q ↦ elim (Bool-cases (c == a)) [
      | inl r ↦ absurd (true≢false (not-both c b y x d r q u t l m))
      | inr r ↦ p.apart b c x y d (ground (arith, q, e b, t)) (ground (arith, r, e c, u)) m l
    ]
  ];
}
  where
    not-both :
        (b c : ℕ) (x y : ReqRespChannel) (d : ℕ)
        → (b == a) ≡ true
        → (c == a) ≡ false
        → f' b ≡ some x
        → f' c ≡ some y
        → has_channel d (own x) ≡ true
        → has_channel d (own y) ≡ true
        → true ≡ false
    not-both b c x y d q r t u m l =
        let same : ch ≡ x = some-injective _ _ (ground (arith, q, e b, t)) in
        sym (subst (λ z. has_channel d (own z) ≡ true) (sym same) m)
        ∙ (k c y d r (ground (arith, r, e c, u)) l).0

-- An object goes, with what it owns.
pub Apart-removed :
    (s s' : ℕ → Option SelectableChannel) (f f' : ℕ → Option ReqRespChannel) (a : ℕ)
    (ch : ReqRespChannel)
    → Apart s f
    → f a ≡ some ch
    → ((b : ℕ) → f' b ≡ (if b == a then none else f b))
    → ((d : ℕ) → s' d ≡ (if has_channel d (own ch) then none else s d))
    → Apart s' f'
Apart-removed s s' f f' a ch p t e k = record {
  alive = λ b x d u m.
      let v : f b ≡ some x = kept b x u in
      let (y, z) = p.alive b x d v m in
      elim (Bool-cases (has_channel d (own ch))) [
        | inr q ↦ (y, ground (arith, k d, q, z))
        | inl q ↦ absurd (none-ne-some x (sym (gone b (p.apart b a x ch d v t m q)) ∙ u))
      ];
  once = λ b x u. p.once b x (kept b x u);
  apart = λ b c x y d u v m l. p.apart b c x y d (kept b x u) (kept c y v) m l;
}
  where
    kept : (b : ℕ) (x : ReqRespChannel) → f' b ≡ some x → f b ≡ some x
    kept b x u = elim (Bool-cases (b == a)) [
      | inl q ↦ absurd (none-ne-some x (ground (arith, e b, q, u)))
      | inr q ↦ ground (arith, e b, q, u)
    ]

    gone : (b : ℕ) → b ≡ a → f' b ≡ none
    gone b q = ground (arith, e b, q)

-- What one object owns another does not.
pub Apart-far :
    (s : ℕ → Option SelectableChannel) (f : ℕ → Option ReqRespChannel) (a b d : ℕ)
    (ch x : ReqRespChannel)
    → Apart s f
    → (b == a) ≡ false
    → f a ≡ some ch
    → f b ≡ some x
    → has_channel d (own x) ≡ true
    → has_channel d (own ch) ≡ false
Apart-far s f a b d ch x p ne t u h = elim (Bool-cases (has_channel d (own ch))) [
  | inr far ↦ far
  | inl near ↦ absurd (==→ne b a ne (p.apart b a x ch d u t h near))
]

-- The list of objects after each change.
pub find_channel-append :
    (b a : ℕ) (ch : ReqRespChannel) (l : List (ℕ × ReqRespChannel))
    → find_channel a l ≡ none
    → find_channel b (l ++ (a, ch) ∷ []) ≡ (if b == a then some ch else find_channel b l)
unfolding find_channel
find_channel-append b a ch [] n = refl
find_channel-append b a ch ((c, x) ∷ l) n =
    let n' : find_channel a l ≡ none = ground (arith, n) in
    ground (arith, n, find_channel-append b a ch l n')

pub find_channel-without :
    (b a : ℕ) (l : List (ℕ × ReqRespChannel))
    → find_channel b (without a l) ≡ (if b == a then none else find_channel b l)
unfolding find_channel without
find_channel-without b a [] = ground arith
find_channel-without b a ((c, x) ∷ l) = ground (arith, find_channel-without b a l)

abbrev replaced : List ℕ → Option ReqRespChannel → Option ReqRespChannel
replaced cs none = none
replaced cs (some ch) = some (record ch { watched = cs })

pub find_channel-with_watched :
    (b a : ℕ) (cs : List ℕ) (l : List (ℕ × ReqRespChannel))
    → find_channel b (with_watched a cs l)
      ≡ (if b == a then replaced cs (find_channel b l) else find_channel b l)
unfolding find_channel with_watched
find_channel-with_watched b a cs [] = ground arith
find_channel-with_watched b a cs ((c, x) ∷ l) = ground (arith, find_channel-with_watched b a cs l)
