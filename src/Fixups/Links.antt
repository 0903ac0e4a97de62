-- ===== src/Fixups/Links.antt =====
-- Lists of links: what lies on none, and their halves (main.c, dump_chained_64_offset_entries).
use maloader.Common.{ℕ, ◌≡◌, some, inl, inr, List, [], ◌∷◌, ◌++◌, All}
use maloader.Machine.{Mem}
use maloader.Machine.Memory.{IsOutside}
use maloader.Host.{Host}
use maloader.Fixups.Walk.{Link, AreApart-byte, AreSeparate, AreNoStreams, IsByteOf}

-- `file` has a byte at `a`.
abbrev pub Has : Mem → (a : ℕ) → Type 0
Has file a = (b : ℕ) × (file a ≡ some b)

-- No link lies on a byte of `Q`.
abbrev pub Avoid : List Link → (Q : ℕ → Type 0) → Type 0
Avoid es Q = All (λ e. (a : ℕ) → Q a → IsOutside e.0 8 a) es

pub All-append : (P : Link → Type 0) (xs ys : List Link) → All P (xs ++ ys) → All P xs × All P ys
All-append P [] ys all = (tt, all)
All-append P (x ∷ xs) ys (p, all) = let (l, r) = All-append P xs ys all in ((p, l), r)

pub IsByteOf-left : (es rest : List Link) (a : ℕ) → IsByteOf es a → IsByteOf (es ++ rest) a
IsByteOf-left [] rest a byte = absurd byte
IsByteOf-left (e ∷ es) rest a (inl here) = inl here
IsByteOf-left (e ∷ es) rest a (inr byte) = inr (IsByteOf-left es rest a byte)

pub IsByteOf-right : (es rest : List Link) (a : ℕ) → IsByteOf rest a → IsByteOf (es ++ rest) a
IsByteOf-right [] rest a byte = byte
IsByteOf-right (e ∷ es) rest a byte = inr (IsByteOf-right es rest a byte)

-- The two halves of a list of links that do not overlap.
pub AreSeparate-append :
    (es rest : List Link)
    → AreSeparate (es ++ rest)
    → AreSeparate es × AreSeparate rest × Avoid es (IsByteOf rest)
AreSeparate-append [] rest separate = (tt, separate, tt)
AreSeparate-append (e ∷ es) rest (apart, separate) =
    let (left, right) = All-append _ es rest apart in
    let (l, r, avoids) = AreSeparate-append es rest separate in
    ((left, l), r, ((λ a byte. AreApart-byte rest e.0 8 a right byte), avoids))

pub AreNoStreams-append :
    (h : Host) (es rest : List Link)
    → AreNoStreams h (es ++ rest)
    → AreNoStreams h es × AreNoStreams h rest
AreNoStreams-append h es rest (i, o, e) =
    let (i', i'') = All-append _ es rest i in
    let (o', o'') = All-append _ es rest o in
    let (e', e'') = All-append _ es rest e in ((i', o', e'), (i'', o'', e''))
