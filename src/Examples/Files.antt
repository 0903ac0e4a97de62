-- ===== src/Examples/Files.antt =====
-- Files to load.
use maloader.Common.{
  ◌+◌, ◌<◌, ◌≡◌, ◌∙◌, ap, some, get_elem?, arith, ℕ, zero, suc, List, [], ◌∷◌, ◌++◌, codes,
}
use maloader.Machine.{le_bytes}

-- 32-bit words, as the file holds them.
unfoldable pub words : List ℕ → List ℕ
unfolding le_bytes
words [] = []
words (w ∷ ws) = le_bytes 4 w ++ words ws

abbrev pub zeros : ℕ → List ℕ
zeros zero = []
zeros (suc n) = 0 ∷ zeros n

-- An executable with a symbol table of one symbol, `_main`, and no segment.
unfoldable pub symbol_file : List ℕ
unfolding words
symbol_file =
    words (0xFEEDFACF ∷ 0x01000007 ∷ 3 ∷ 2 ∷ 1 ∷ 24 ∷ 0 ∷ 0 ∷ [])
    ++ words (2 ∷ 24 ∷ 56 ∷ 1 ∷ 72 ∷ 8 ∷ [])
    ++ words (0 ∷ 0 ∷ 0x1234 ∷ 0 ∷ [])
    ++ codes "_main"
    ++ zeros 30

-- `n` bytes that count up from `i`.
abbrev pub ascending : (i n : ℕ) → List ℕ
ascending i zero = []
ascending i (suc n) = i ∷ ascending (i + 1) n

pub get_elem?-ascending : (i n j : ℕ) → j < n → get_elem? (ascending i n) j ≡ some (i + j)
get_elem?-ascending i zero j h = absurd (omega arith)
get_elem?-ascending i (suc n) zero h = ap some (omega arith)
get_elem?-ascending i (suc n) (suc j) h =
    get_elem?-ascending (i + 1) n j (omega arith) ∙ ap some (omega arith)

-- argv, whose second entry points behind it, and the file `a` of that name.
unfoldable pub started_bytes : List ℕ
unfolding words symbol_file
started_bytes = zeros 8 ++ words (0xFF0 ∷ 0 ∷ []) ++ (97 ∷ []) ++ zeros 15 ++ symbol_file
