-- ===== src/Bind/Bindable.antt =====
-- The entries of a bind list whose words and names do not overlap (bind.c, do_bind).
use maloader.Common.{
  ℕ, ◌+◌, ◌<◌, ◌≤◌, ◌≡◌, ◌∙◌, inl, inr, ◌⊎◌, List, [], ◌∷◌, ◌++◌, length, length-append, All, arith,
}
use maloader.Machine.{Mem, BindInfo, DylibName, in_file, literal, put_bytes, le_bytes}
use maloader.Machine.Memory.{
  IsMapped, put_bytes-ne-none, read_bytes-put_bytes_apart, length-le_bytes,
}
use maloader.Bind.Named.{HasTextIn}

-- An entry of the bind list, and the text that its name points to.
abbrev pub Named : Type 0
Named = BindInfo × List ℕ

abbrev pub infos_of : List Named → List BindInfo
infos_of [] = []
infos_of (b ∷ bs) = b.0 ∷ infos_of bs

-- The `n` bytes at `p` and the `k` bytes at `q` have none in common.
abbrev pub IsApart : (p n q k : ℕ) → Type 0
IsApart p n q k = (p + n ≤ q) ⊎ (q + k ≤ p)

-- The `n` bytes at `p` lie in none of the words that are bound.
abbrev pub IsClear : List Named → (p n : ℕ) → Type 0
IsClear bs p n = All (λ b. IsApart p n b.0.address 8) bs

-- No two of the words overlap.
abbrev pub IsSeparate : List Named → Type 0
IsSeparate [] = Unit {0}
IsSeparate (b ∷ bs) = IsClear bs b.0.address 8 × IsSeparate bs

-- One of the words is at `q`.
abbrev pub IsSlot : List Named → ℕ → Type 0
IsSlot [] q = ⊥
IsSlot (b ∷ bs) q = (q ≡ b.0.address) ⊎ IsSlot bs q

pub IsClear-slot : (bs : List Named) (p n q : ℕ) → IsClear bs p n → IsSlot bs q → IsApart p n q 8
IsClear-slot [] p n q clear slot = absurd slot
IsClear-slot (b ∷ bs) p n q clear (inl e) = rw e clear.0
IsClear-slot (b ∷ bs) p n q clear (inr slot) = IsClear-slot bs p n q clear.1 slot

-- What is needed of an entry: its word lies above the start of the image and is mapped, and its name
-- is a text that no word of the bind list overwrites.
abbrev pub IsBindable : (img : ℕ) → List Named → Mem → Named → Type 0
IsBindable img bs mem b =
    (img < b.0.address)
    × IsMapped mem b.0.address 8
    × HasTextIn mem b.0.func_name b.1
    × IsClear bs b.0.func_name (length b.1 + 1)

-- `text` is the name of a library, and no word of the bind list overwrites it.
abbrev pub IsNamed : List Named → Mem → DylibName → List ℕ → Type 0
IsNamed bs mem (in_file p) text = HasTextIn mem p text × IsClear bs p (length text + 1)
IsNamed bs mem (literal t) text = t ≡ text

abbrev pub AreNamed : List Named → Mem → List DylibName → List (List ℕ) → Type 0
AreNamed bs mem [] [] = Unit {0}
AreNamed bs mem [] (text ∷ texts) = ⊥
AreNamed bs mem (name ∷ names) [] = ⊥
AreNamed bs mem (name ∷ names) (text ∷ texts) =
    IsNamed bs mem name text × AreNamed bs mem names texts

abbrev pub store : (q v : ℕ) → Mem → Mem
store q v mem = put_bytes mem q (le_bytes 8 v)

pub HasTextIn-store :
    (mem : Mem) (q v p : ℕ) (text : List ℕ)
    → IsApart p (length text + 1) q 8
    → HasTextIn mem p text
    → HasTextIn (store q v mem) p text
HasTextIn-store mem q v p text apart (clean, stored, fits) = (
  clean,
  read_bytes-put_bytes_apart mem q (le_bytes 8 v) p (length (text ++ 0 ∷ [])) (side apart) ∙ stored,
  fits,
)
  where
    side :
        IsApart p (length text + 1) q 8
        → (p + length (text ++ 0 ∷ []) ≤ q) ⊎ (q + length (le_bytes 8 v) ≤ p)
    side (inl h) = inl (omega (arith, length-append text (0 ∷ [])))
    side (inr h) = inr (rw (length-le_bytes 8 v) h)

module _ (img : ℕ) (bs : List Named) (q v : ℕ) (slot : IsSlot bs q) where
  pub IsBindable-store :
      (mem : Mem) (b : Named) → IsBindable img bs mem b → IsBindable img bs (store q v mem) b
  IsBindable-store mem b (above, mapped, named, clear) = (
    above,
    (λ a from upto. put_bytes-ne-none mem q (le_bytes 8 v) a (mapped a from upto)),
    HasTextIn-store mem q v _ b.1 (IsClear-slot bs _ _ q clear slot) named,
    clear,
  )

  pub All-store :
      (mem : Mem) (cs : List Named)
      → All (IsBindable img bs mem) cs
      → All (IsBindable img bs (store q v mem)) cs
  All-store mem [] h = tt
  All-store mem (c ∷ cs) (h, hs) = (IsBindable-store mem c h, All-store mem cs hs)

  pub IsNamed-store :
      (mem : Mem) (name : DylibName) (text : List ℕ)
      → IsNamed bs mem name text
      → IsNamed bs (store q v mem) name text
  IsNamed-store mem (in_file p) text (has, clear) =
      (HasTextIn-store mem q v p text (IsClear-slot bs _ _ q clear slot) has, clear)
  IsNamed-store mem (literal t) text same = same

  pub AreNamed-store :
      (mem : Mem) (names : List DylibName) (texts : List (List ℕ))
      → AreNamed bs mem names texts
      → AreNamed bs (store q v mem) names texts
  AreNamed-store mem [] [] h = tt
  AreNamed-store mem [] (text ∷ texts) h = absurd h
  AreNamed-store mem (name ∷ names) [] h = absurd h
  AreNamed-store mem (name ∷ names) (text ∷ texts) (h, hs) =
      (IsNamed-store mem name text h, AreNamed-store mem names texts hs)
