-- ===== src/Translate/Filesystems.antt =====
-- One filesystem for each hand-off directory, whatever is asked for and in which order.
use tz_oss_interop.Prelude.{
  ℕ, ◌+◌, ◌<◌, ◌≡◌, refl, sym, ◌∙◌, ap, subst, Option, none, some, [], ◌∷◌, arith, length, inl, inr,
  Option-cases, Bool-cases, eq_of_==, ◌⊎◌, ◌==◌, ==_refl,
}
use tz_oss_interop.Prelude.Text.{Text, text_eq}
use tz_oss_interop.Prelude.Dict.{lookup, insert, lookup-insert}
use tz_oss_interop.Translate.{Filesystem, configured, interior, Interiors, filesystem_for}

-- Every filesystem made is an interior one with a number below `bound`.
abbrev pub IsNumbered : ℕ → Interiors → Type 0
IsNumbered bound made =
    (directory : Text) (f : Filesystem)
    → lookup directory made ≡ some f
    → (n : ℕ) × (f ≡ interior n) × (n < bound)

-- No two directories have one filesystem.
abbrev pub IsSeparate : Interiors → Type 0
IsSeparate made =
    (a b : Text) (f : Filesystem) → lookup a made ≡ some f → lookup b made ≡ some f → a ≡ b

pub record IsConsistent (made : Interiors) : Type 0 where
  pub numbered : IsNumbered (length made) made
  pub separate : IsSeparate made

length-insert_new :
    (k : Text) (v : Filesystem) (d : Interiors)
    → lookup k d ≡ none
    → length (insert k v d) ≡ length d + 1
unfolding lookup insert
length-insert_new k v [] h = refl
length-insert_new k v ((j, w) ∷ d) h = ground (arith, length-insert_new k v d)

filesystem_for_new :
    (directory : Text) (made : Interiors)
    → lookup directory made ≡ none
    → filesystem_for (some directory) made
      ≡ (interior (length made), insert directory (interior (length made)) made)
unfolding filesystem_for
filesystem_for_new directory made h = rw (h, filesystem_for) refl

filesystem_for_old :
    (directory : Text) (made : Interiors) (f : Filesystem)
    → lookup directory made ≡ some f
    → filesystem_for (some directory) made ≡ (f, made)
unfolding filesystem_for
filesystem_for_old directory made f h = rw (h, filesystem_for) refl

-- What an insertion of a fresh filesystem adds.
lookup-insert_new :
    (directory a : Text) (made : Interiors) (new f : Filesystem)
    → lookup a (insert directory new made) ≡ some f
    → ((directory ≡ a) × (new ≡ f)) ⊎ (lookup a made ≡ some f)
lookup-insert_new directory a made new f h =
    let now = sym (lookup-insert directory a new made) ∙ h in
    elim (Bool-cases (directory == a)) [
      | inl same ↦
          let found : some new ≡ some f = rw same at now in
          inl (eq_of_== directory a same, cc found)
      | inr other ↦ inr (rw other at now)
    ]

insert-IsConsistent :
    (directory : Text) (made : Interiors)
    → lookup directory made ≡ none
    → IsConsistent made
    → IsConsistent (insert directory (interior (length made)) made)
insert-IsConsistent directory made h good =
    let new = interior (length made) in
    let longer = length-insert_new directory new made h in
    record {
      numbered = λ a f found. elim (lookup-insert_new directory a made new f found) [
        | inl (_, is_new) ↦ (length made, sym is_new, omega arith)
        | inr before ↦ let (n, number, small) = good.numbered a f before in (n, number, omega arith)
      ];
      separate = λ a b f at_a at_b. elim (lookup-insert_new directory a made new f at_a) [
        | inl (is_a, new_a) ↦ elim (lookup-insert_new directory b made new f at_b) [
          | inl (is_b, new_b) ↦ sym is_a ∙ is_b
          | inr before ↦
              let (n, number, small) = good.numbered b f before in
              absurd (too_small n new_a number small)
        ]
        | inr before ↦ elim (lookup-insert_new directory b made new f at_b) [
          | inl (is_b, new_b) ↦
              let (n, number, small) = good.numbered a f before in
              absurd (too_small n new_b number small)
          | inr before_b ↦ good.separate a b f before before_b
        ]
      ];
    }
  where
    too_small :
        {f : Filesystem} (n : ℕ) → interior (length made) ≡ f → f ≡ interior n → n < length made → ⊥
    too_small n e g small = let same : length made ≡ n = cc (e ∙ g) in omega arith

-- The filesystem that a hand-off, or the run's boundary, has.
abbrev pub Has : Interiors → Option Text → Filesystem → Type 0
Has made none f = f ≡ configured
Has made (some directory) f = lookup directory made ≡ some f

filesystem_for-Has :
    (directory : Option Text) (made : Interiors)
    → Has (filesystem_for directory made).1 directory (filesystem_for directory made).0
unfolding filesystem_for
filesystem_for-Has none made = refl
filesystem_for-Has (some directory) made = elim (Option-cases (lookup directory made)) [
  | inl h ↦
      let new = interior (length made) in
      rw (filesystem_for_new directory made h)
        (lookup-insert directory directory new made ∙ rw (==_refl directory) refl)
  | inr (f, h) ↦ rw (filesystem_for_old directory made f h) h
]

Has-filesystem_for :
    (directory other : Option Text) (made : Interiors) (f : Filesystem)
    → Has made directory f
    → Has (filesystem_for other made).1 directory f
unfolding filesystem_for
Has-filesystem_for none other made f h = h
Has-filesystem_for (some directory) none made f h = h
Has-filesystem_for (some directory) (some other) made f h =
    elim (Option-cases (lookup other made)) [
      | inl k ↦
          let new = interior (length made) in
          rw (filesystem_for_new other made k) (
            lookup-insert other directory new made ∙ elim (Bool-cases (other == directory)) [
              | inl same ↦
                  let is : other ≡ directory = eq_of_== other directory same in
                  let gone = subst (λ d. lookup d made ≡ none) is k in absurd (cc (gone, h))
              | inr differ ↦ rw differ h
            ])
      | inr (g, k) ↦ rw (filesystem_for_old other made g k) h
    ]

Has-only :
    (directory : Option Text) (made : Interiors) (f : Filesystem)
    → Has made directory f
    → (filesystem_for directory made).0 ≡ f
unfolding filesystem_for
Has-only none made f h = sym h
Has-only (some directory) made f h = rw (filesystem_for_old directory made f h) refl

Has-separate :
    (a b : Option Text) (made : Interiors) (f : Filesystem)
    → IsConsistent made
    → Has made a f
    → Has made b f
    → a ≡ b
Has-separate none none made f good at_a at_b = refl
Has-separate none (some b) made f good at_a at_b =
    let (n, number, small) = good.numbered b f at_b in
    let clash : configured ≡ interior n = sym at_a ∙ number in absurd (cc clash)
Has-separate (some a) none made f good at_a at_b =
    let (n, number, small) = good.numbered a f at_a in
    let clash : configured ≡ interior n = sym at_b ∙ number in absurd (cc clash)
Has-separate (some a) (some b) made f good at_a at_b = ap some (good.separate a b f at_a at_b)

filesystem_for_keeps :
    (directory : Option Text) (made : Interiors)
    → IsConsistent made
    → IsConsistent (filesystem_for directory made).1
unfolding filesystem_for
filesystem_for_keeps none made good = good
filesystem_for_keeps (some directory) made good = elim (Option-cases (lookup directory made)) [
  | inl h ↦ rw (filesystem_for_new directory made h) (insert-IsConsistent directory made h good)
  | inr (f, h) ↦ rw (filesystem_for_old directory made f h) good
]

-- Where the interior filesystems so far are numbered and separate, they stay so whichever hand-off a
-- filesystem is asked for; asking for it again after any other gives the same filesystem; and the
-- other one has the same filesystem only if it is the same hand-off. The run's boundary counts as a
-- hand-off here.
pub filesystem_for-IsConsistent :
    (directory other : Option Text) (made : Interiors)
    → IsConsistent made
    → IsConsistent (filesystem_for directory made).1
      × ((filesystem_for directory (filesystem_for other (filesystem_for directory made).1).1).0
          ≡ (filesystem_for directory made).0)
      × ((filesystem_for other (filesystem_for directory made).1).0
            ≡ (filesystem_for directory made).0
          → directory ≡ other)
filesystem_for-IsConsistent directory other made good =
    let made' = (filesystem_for directory made).1 in
    let made'' = (filesystem_for other made').1 in
    let f = (filesystem_for directory made).0 in
    let kept = filesystem_for_keeps directory made good in
    let has = filesystem_for-Has directory made in
    let later = Has-filesystem_for directory other made' f has in
    (
      kept,
      Has-only directory made'' f later,
      λ same.
          Has-separate directory other made'' f (filesystem_for_keeps other made' kept) later
            (subst (Has made'' other) same (filesystem_for-Has other made')),
    )
