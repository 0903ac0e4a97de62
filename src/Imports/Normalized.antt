-- ===== src/Imports/Normalized.antt =====
-- normalize_macho_symbol_name (bind.c): what is left of a Mach-O name.
use maloader.Common.{
  ℕ, zero, suc, ◌-◌, ◌≤◌, ◌<◌, ◌≡◌, ◌≢◌, refl, ap, arith, List, [], ◌∷◌, ◌++◌, length, take, All,
  ◌==◌, ==-refl, ==-of_ne, Bool-cases, inl, inr, ne_of_==,
}
use maloader.Imports.{until, skip_underscore, normalize_macho_symbol_name}

-- No character of the text is `c`.
abbrev pub Avoids : ℕ → List ℕ → Type 0
Avoids c = All (λ b. b ≢ c)

until-Avoids : (c : ℕ) (text : List ℕ) → Avoids c (until c text)
unfolding until
until-Avoids c [] = tt
until-Avoids c (b ∷ bs) = elim (Bool-cases (b == c)) [
  | inl e ↦ rw e tt
  | inr e ↦ rw e ((λ same. ne_of_== e same), until-Avoids c bs)
]

length-until : (c : ℕ) (text : List ℕ) → length (until c text) ≤ length text
unfolding until
length-until c [] = omega arith
length-until c (b ∷ bs) = ground (arith, length-until c bs)

length-take : (n : ℕ) (text : List ℕ) → length (take n text) ≤ n
length-take zero text = omega arith
length-take (suc n) [] = omega arith
length-take (suc n) (b ∷ bs) = omega (arith, length-take n bs)

-- Whatever the name, the result has no `$`, and fits a buffer of `out_size` bytes with its NUL.
pub normalize_macho_symbol_name-Avoids :
    (name : List ℕ) (out_size : ℕ)
    → 0 < out_size
    → Avoids b'$' (normalize_macho_symbol_name name out_size)
      × (length (normalize_macho_symbol_name name out_size) < out_size)
unfolding normalize_macho_symbol_name
normalize_macho_symbol_name-Avoids name out_size some_room =
    let kept = take (out_size - 1) (skip_underscore name) in
    (
      until-Avoids b'$' kept,
      omega (arith, length-until b'$' kept, length-take (out_size - 1) (skip_underscore name)),
    )

until-take_append :
    (c n : ℕ) (stem suffix : List ℕ)
    → Avoids c stem
    → length stem ≤ n
    → until c (take n (stem ++ c ∷ suffix)) ≡ stem
unfolding until
until-take_append c zero [] suffix avoids fits = refl
until-take_append c (suc n) [] suffix avoids fits = rw ==-refl refl
until-take_append c zero (b ∷ stem) suffix avoids fits = absurd (omega arith)
until-take_append c (suc n) (b ∷ stem) suffix (differs, avoids) fits =
    rw (==-of_ne b c differs)
      (ap (λ s. b ∷ s) (until-take_append c n stem suffix avoids (omega arith)))

until-take :
    (c n : ℕ) (stem : List ℕ) → Avoids c stem → length stem ≤ n → until c (take n stem) ≡ stem
unfolding until
until-take c zero [] avoids fits = refl
until-take c (suc n) [] avoids fits = refl
until-take c zero (b ∷ stem) avoids fits = absurd (omega arith)
until-take c (suc n) (b ∷ stem) (differs, avoids) fits =
    rw (==-of_ne b c differs) (ap (λ s. b ∷ s) (until-take c n stem avoids (omega arith)))

-- A stem without `$` that fits the buffer is what is left of it behind an underscore, alone and
-- before any suffix that starts with `$`.
pub normalize_macho_symbol_name-stem :
    (stem suffix : List ℕ) (out_size : ℕ)
    → Avoids b'$' stem
    → length stem < out_size
    → (normalize_macho_symbol_name (b'_' ∷ stem) out_size ≡ stem)
      × (normalize_macho_symbol_name (b'_' ∷ (stem ++ b'$' ∷ suffix)) out_size ≡ stem)
unfolding normalize_macho_symbol_name
normalize_macho_symbol_name-stem stem suffix out_size avoids fits = (
  until-take b'$' _ stem avoids (omega arith),
  until-take_append b'$' _ stem suffix avoids (omega arith),
)
