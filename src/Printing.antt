-- ===== src/Printing.antt =====
-- What the program prints of a segment (main.c, print_segment and print_segment_64) and of the bind
-- list (bind.c, print_bind_list).
use maloader.Common.{ℕ, List, [], ◌∷◌, ◌++◌, length, ltb, codes}
use maloader.Machine.{BindInfo, Cmd, pure, undefined, ◌>>=◌, when◌then◌else◌, c_string, until_nul}
use maloader.Formats.Commands.{SegmentCommand, SegmentCommand64}

-- An argument of printf, with the form that it is printed in.
pub data Printed : Type 0 where
  hex dec : ℕ → Printed
  text : List ℕ → Printed

-- An array of 16 characters is printed up to its NUL; without one, printf reads behind it.
unfoldable pub print_chars : List ℕ → Cmd Printed
unfolding until_nul
print_chars chars =
    when ltb (length (until_nul chars)) 16 then pure (text (until_nul chars)) else undefined

unfoldable pub print_segment_64 : SegmentCommand64 → Cmd (List Printed)
unfolding print_chars
print_segment_64 lc_segment = do
  segname ← print_chars lc_segment.segname
  pure (
      hex lc_segment.cmd
      ∷ hex lc_segment.cmdsize
      ∷ segname
      ∷ hex lc_segment.vmaddr
      ∷ hex lc_segment.vmsize
      ∷ hex lc_segment.fileoff
      ∷ hex lc_segment.filesize
      ∷ dec lc_segment.maxprot
      ∷ dec lc_segment.initprot
      ∷ dec lc_segment.nsects
      ∷ hex lc_segment.flags
      ∷ [])

unfoldable pub print_segment : SegmentCommand → Cmd (List Printed)
unfolding print_chars
print_segment lc_segment = do
  segname ← print_chars lc_segment.segname
  pure (
      hex lc_segment.cmd
      ∷ hex lc_segment.cmdsize
      ∷ segname
      ∷ hex lc_segment.vmaddr
      ∷ hex lc_segment.vmsize
      ∷ hex lc_segment.fileoff
      ∷ hex lc_segment.filesize
      ∷ dec lc_segment.maxprot
      ∷ dec lc_segment.initprot
      ∷ dec lc_segment.nsects
      ∷ hex lc_segment.flags
      ∷ [])

-- One line for each entry, its name and its address.
unfoldable pub print_binds : List BindInfo → Cmd (List (List Printed))
unfolding c_string
print_binds [] = pure []
print_binds (info ∷ rest) = do
  func_name ← c_string info.func_name
  lines ← print_binds rest
  pure ((text func_name ∷ hex info.address ∷ []) ∷ lines)

abbrev pub title : List Printed
title = text (codes "--- bind list ---") ∷ []

abbrev pub end : List Printed
end = text (codes "---           ---") ∷ []

unfoldable pub print_bind_list : List BindInfo → Cmd (List (List Printed))
unfolding print_binds
print_bind_list list = do lines ← print_binds list; pure (title ∷ (lines ++ (end ∷ [])))
