-- ===== src/Segments/Evolution.antt =====
-- Loading a segment keeps the machine: the image is mapped once, and the table holds its entries.
use maloader.Machine.Ends.{Ends, Ends-of_Keeps, Ends-bind, Ends-when, Ends-set_context}
use maloader.Common.{
  ℕ, zero, suc, ◌≤◌, ◌≡◌, inl, inr, refl, Bool-cases, Option, none, some, List, length,
  length-append, arith, ltb,
}
use maloader.Machine.{
  MachContext, Machine, ◌>>=◌, set_context, map_zero, mach_loader_max_segments, Mem,
}
use maloader.Machine.Runs.{Ensures, returns}
use maloader.Machine.Evolves.{
  WellFormed, ContextEvolves, Extends-refl, Keeps, Kept, Evolves-refl, Keeps-pure,
  Keeps-set_context, keeps, Keeps-bind, Keeps-get_mem, Keeps-get_context, Keeps-reads,
}
use maloader.Machine.Yields.{
  IsReadOnly, IsReadOnly-pure, IsReadOnly-bind, IsReadOnly-reads, reads_only, Yields, Yields-read,
  Yields-get_context, Yields-get_mem, Yields-when,
}
use maloader.Machine.Commands.{keeps_commands, Keeps-add_mapping, Keeps-memcpy}
use maloader.Formats.Commands.{SegmentCommand64, SegmentCommand}
use maloader.Host.{Host, MapsFresh, MmapCall}
use maloader.Segments.{
  Extent, scan_command, scan_commands, image_call, use_mapping, map_extent, ensure_image_mapping_64,
  record_segment, copy_segment_64, load_segment_64, load_section_64, load_section, map_text,
  load_segment, enter_mapping,
}

IsReadOnly-scan_command : (p : ℕ) (e : Extent) → IsReadOnly (scan_command p e)
unfolding scan_command
IsReadOnly-scan_command p e = search reads_only

IsReadOnly-scan_commands : (rounds p : ℕ) (e : Extent) → IsReadOnly (scan_commands rounds p e)
unfolding scan_commands
IsReadOnly-scan_commands zero p e = IsReadOnly-pure e
IsReadOnly-scan_commands (suc rounds) p e =
    IsReadOnly-bind (IsReadOnly-scan_command p e)
      λ e'. IsReadOnly-bind (IsReadOnly-reads _) λ n. IsReadOnly-scan_commands rounds _ e'

record_segment-ContextEvolves :
    (segname : List ℕ) (vmaddr vmsize : ℕ) (c : MachContext)
    → ContextEvolves c (record_segment segname vmaddr vmsize c)
unfolding record_segment
record_segment-ContextEvolves segname vmaddr vmsize c =
    elim (Bool-cases (ltb (length c.segments) mach_loader_max_segments)) [
      | inl e ↦
          rw (e, record_segment)
            (record {
              memblock = refl;
              argc = refl;
              argv = refl;
              bit = refl;
              img_addr = λ _. refl;
              v_addr = λ _. refl;
              segments = (_, refl);
              b_list = Extends-refl _;
              d_list = Extends-refl _;
            })
      | inr e ↦
          rw (e, record_segment)
            (record {
              memblock = refl;
              argc = refl;
              argv = refl;
              bit = refl;
              img_addr = λ _. refl;
              v_addr = λ _. refl;
              segments = Extends-refl _;
              b_list = Extends-refl _;
              d_list = Extends-refl _;
            })
    ]

record_segment-fits :
    (segname : List ℕ) (vmaddr vmsize : ℕ) (c : MachContext)
    → length c.segments ≤ mach_loader_max_segments
    → length (record_segment segname vmaddr vmsize c).segments ≤ mach_loader_max_segments
unfolding record_segment
record_segment-fits segname vmaddr vmsize c h = grind (arith, length-append)

pub Keeps-record_segment :
    (segname : List ℕ) (vmaddr vmsize : ℕ)
    → Keeps (set_context (record_segment segname vmaddr vmsize))
Keeps-record_segment segname vmaddr vmsize =
    Keeps-set_context _ (record_segment-ContextEvolves segname vmaddr vmsize)
      (record_segment-fits segname vmaddr vmsize)

Keeps-copy_segment_64 : (s : SegmentCommand64) → Keeps (copy_segment_64 s)
unfolding copy_segment_64
Keeps-copy_segment_64 s = search keeps_commands

image-ContextEvolves :
    (c : MachContext) (img_addr v_addr : ℕ)
    → c.img_addr ≡ 0
    → ContextEvolves c (record c { img_addr = img_addr; v_addr = v_addr })
image-ContextEvolves c img_addr v_addr fresh = record {
  memblock = refl;
  argc = refl;
  argv = refl;
  bit = refl;
  img_addr = λ ne. absurd (ne fresh);
  v_addr = λ ne. absurd (ne fresh);
  segments = Extends-refl _;
  b_list = Extends-refl _;
  d_list = Extends-refl _;
}

module _ (h : Host) (laws : MapsFresh h) where
  -- Where no image is mapped, what mmap returns becomes the image.
  use_mapping-Kept :
      (e : Extent) (m : Machine) (r : Option ℕ)
      → h.mmap m.mem (image_call e) ≡ r
      → WellFormed m
      → m.context.img_addr ≡ 0
      → Ensures (Kept m) (use_mapping e r m)
  unfolding use_mapping ◌>>=◌ map_zero
  use_mapping-Kept e m none q w fresh = returns (w, Evolves-refl m)
  use_mapping-Kept e m (some mapped) q w fresh =
      let fits = laws.in_space m.mem (image_call e) mapped q in
      returns
        {m = record m {
          mem = map_zero m.mem mapped (image_call e).length;
          context = record m.context { img_addr = mapped; v_addr = e.min_vmaddr };
        }}
        (
          record { bounded = λ a far. ground (arith, w.bounded a far); table = w.table },
          record {
            mapped = λ a was now. ground arith;
            context = image-ContextEvolves m.context mapped e.min_vmaddr fresh;
          },
        )

  map_extent-Kept :
      (e : Extent) (m : Machine)
      → WellFormed m
      → m.context.img_addr ≡ 0
      → Yields m (Kept m) (map_extent h e)
  unfolding map_extent
  map_extent-Kept e m w fresh =
      Yields-when _ (λ b. record { run = (Keeps-pure _).run m w })
        λ b.
          Yields-get_mem λ mem same. record { run = rw same (use_mapping-Kept e m _ refl w fresh) }

  Keeps-ensure_image_mapping_64 : Keeps (ensure_image_mapping_64 h)
  unfolding ensure_image_mapping_64
  Keeps-ensure_image_mapping_64 = record { run = λ m w. (at m w).run }
    where
      at : (m : Machine) → WellFormed m → Yields m (Kept m) (ensure_image_mapping_64 h)
      at m w = Yields-get_context λ c same.
          Yields-when _ (λ b. record { run = (Keeps-pure _).run m w })
            λ b. Yields-read (IsReadOnly-reads _) λ n.
              Yields-read (IsReadOnly-scan_commands n _ _) λ e. map_extent-Kept e m w (ground arith)

  pub Keeps-load_segment_64 : Keeps (load_segment_64 h)
  unfolding load_segment_64
  Keeps-load_segment_64 =
      search (keeps, Keeps-ensure_image_mapping_64, Keeps-copy_segment_64, Keeps-record_segment)
        depth 9

pub Keeps-load_section_64 : Keeps load_section_64
unfolding load_section_64
Keeps-load_section_64 = search keeps

pub Keeps-load_section : Keeps load_section
unfolding load_section
Keeps-load_section = search keeps

-- The 32-bit loader maps the image anew for each __TEXT, so that the image may move.
module _ (h : Host) (laws : MapsFresh h) where
  pub Keeps-enter_mapping :
      (mem : Mem) (call : MmapCall) → Keeps (enter_mapping call.length (h.mmap mem call))
  Keeps-enter_mapping mem call = at (h.mmap mem call) refl
    where
      at : (r : Option ℕ) → h.mmap mem call ≡ r → Keeps (enter_mapping call.length r)
      at none e = unfold enter_mapping in Keeps-pure _
      at (some base) e =
          unfold enter_mapping in
          Keeps-bind (Keeps-add_mapping base call.length (laws.in_space mem call base e))
            λ _. Keeps-pure base

  Ends-map_text : (s : SegmentCommand) → Ends (map_text h s)
  unfolding map_text
  Ends-map_text s = Ends-bind (Ends-of_Keeps Keeps-get_mem) λ mem.
      Ends-bind (Ends-of_Keeps (Keeps-enter_mapping mem _)) λ vm_segment.
        Ends-bind (Ends-of_Keeps Keeps-get_context) λ c.
          Ends-bind (Ends-of_Keeps (Keeps-memcpy vm_segment _ _))
            λ _. Ends-set_context _ (λ _. refl) (λ _. refl) (λ _. omega arith)

  pub Ends-load_segment : Ends (load_segment h)
  unfolding load_segment
  Ends-load_segment = Ends-bind (Ends-of_Keeps Keeps-get_context) λ c.
      Ends-bind (Ends-of_Keeps (Keeps-reads _)) λ s.
        Ends-bind (Ends-when _ (Ends-map_text s) (Ends-of_Keeps (Keeps-pure tt))) λ _.
          Ends-bind (Ends-of_Keeps (Keeps-record_segment _ _ _)) λ _. Ends-of_Keeps (Keeps-pure _)
