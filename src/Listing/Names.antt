-- ===== src/Listing/Names.antt =====
-- Which names are listed, and in which order.
use tz_oss_interop.Prelude.{
  ◌≡◌, refl, ◌∙◌, ap, Bool, true, false, ◌&&◌, ◌||◌, List, [], ◌∷◌, arith, if◌then◌else◌, any,
  contains, ◌==◌,
}
use tz_oss_interop.Prelude.{nat_eq}
use tz_oss_interop.Prelude.Text.{Text, text_eq}
use tz_oss_interop.Listing.{
  ManifestFile, text_leb, insert_sorted, sorted, add, is_listed, add_stems, add_directories,
  translation_stems,
}

contains-insert_sorted :
    (name a : Text) (names : List Text)
    → contains (insert_sorted name names) a ≡ (name == a || contains names a)
unfolding insert_sorted
contains-insert_sorted name a [] = refl
contains-insert_sorted name a (other ∷ names) = ground (arith, contains-insert_sorted name a names)

contains-sorted : (names : List Text) (a : Text) → contains (sorted names) a ≡ contains names a
unfolding sorted
contains-sorted [] a = refl
contains-sorted (name ∷ names) a =
    contains-insert_sorted name a (sorted names)
    ∙ ap (λ b. name == a || b) (contains-sorted names a)

text_leb_total : (s t : Text) → text_leb s t ≡ false → text_leb t s ≡ true
unfolding text_leb
text_leb_total [] t h = absurd (cc h)
text_leb_total (c ∷ s) [] h = refl
text_leb_total (c ∷ s) (d ∷ t) h = ground (arith, text_leb_total s t, nat_eq.agrees c d)

abbrev pub IsSorted : List Text → Type 0
IsSorted [] = Unit
IsSorted (s ∷ []) = Unit
IsSorted (s ∷ t ∷ names) = (text_leb s t ≡ true) × IsSorted (t ∷ names)

insert_sorted-IsSorted :
    (name : Text) (names : List Text) → IsSorted names → IsSorted (insert_sorted name names)
unfolding insert_sorted
insert_sorted-IsSorted name [] h = tt
insert_sorted-IsSorted name (s ∷ []) h = ground (arith, text_leb_total name s)
insert_sorted-IsSorted name (s ∷ t ∷ names) h =
    ground (arith, text_leb_total name s, insert_sorted-IsSorted name (t ∷ names) h.1)

sorted-IsSorted : (names : List Text) → IsSorted (sorted names)
unfolding sorted
sorted-IsSorted [] = tt
sorted-IsSorted (name ∷ names) = insert_sorted-IsSorted name (sorted names) (sorted-IsSorted names)

contains-add_stems :
    (keep : ManifestFile → Bool) (files : List ManifestFile) (names : List Text) (a : Text)
    → contains (add_stems keep files names) a
      ≡ (contains names a || any (λ file. keep file && file.stem == a) files)
unfolding add_stems
contains-add_stems keep [] names a = ground arith
contains-add_stems keep (file ∷ files) names a =
    contains-add_stems keep files (if keep file then add names file.stem else names) a
    ∙ ground (arith, text_eq.agrees file.stem a)

contains-add_directories :
    (keep : ManifestFile → Bool) (directories : List (List ManifestFile)) (names : List Text)
    (a : Text)
    → contains (add_directories keep directories names) a
      ≡ (contains names a || any (any (λ file. keep file && file.stem == a)) directories)
unfolding add_directories
contains-add_directories keep [] names a = ground arith
contains-add_directories keep (files ∷ directories) names a =
    contains-add_directories keep directories (add_stems keep files names) a
    ∙ ground (arith, contains-add_stems keep files names a)

-- The translation pipelines are listed in order, and a name is listed exactly where some directory
-- holds a file of that stem with none of the unlisted subdirectories in its path.
pub translation_stems-IsSorted :
    (directories : List (List ManifestFile)) (name : Text)
    → IsSorted (translation_stems directories)
      × (contains (translation_stems directories) name
          ≡ any (any (λ file. is_listed file && file.stem == name)) directories)
unfolding translation_stems
translation_stems-IsSorted directories name = (
  sorted-IsSorted (add_directories is_listed directories []),
  contains-sorted (add_directories is_listed directories []) name
      ∙ contains-add_directories is_listed directories [] name,
)
