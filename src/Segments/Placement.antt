-- ===== src/Segments/Placement.antt =====
-- Where the image is placed (main.c): the outcomes of mmap.
use maloader.Common.{
  ℕ, ◌+◌, ◌-◌, ◌^◌, ◌≤◌, ◌<◌, ◌≡◌, ◌≢◌, ◌⊎◌, inl, inr, refl, false, Option-cases, Bool-cases, ◌==◌,
  leb, ◌||◌, arith, none, some,
}
use maloader.Machine.{Machine, ok, map_zero, success, failure, ◌>>=◌}
use maloader.Host.{Host, MapsFresh}
use maloader.Segments.{Extent, image_call, use_mapping, map_extent}

-- The machine with an image for the range at `base`.
abbrev pub imaged : Machine → Extent → (base : ℕ) → Machine
imaged m e base = record m {
  mem = map_zero m.mem base (image_call e).length;
  context = record m.context { img_addr = base; v_addr = e.min_vmaddr };
}

-- Where mmap maps fresh memory, the range of the scan is either refused, and nothing changes, or the
-- image is mapped: somewhere but at NULL, inside the address space, for a range that is not empty.
pub map_extent-outcome :
    (h : Host) (e : Extent) (m : Machine)
    → MapsFresh h
    → (map_extent h e m ≡ ok failure m)
      ⊎ ((base : ℕ) × (map_extent h e m ≡ ok success (imaged m e base))
          × (base ≢ 0)
          × (base + (image_call e).length ≤ 2 ^ 64)
          × (e.min_vmaddr < e.max_vmaddr))
unfolding map_extent use_mapping ◌>>=◌
map_extent-outcome h e m laws =
    elim (Bool-cases (e.min_vmaddr == 2 ^ 64 - 1 || leb e.max_vmaddr e.min_vmaddr)) [
      | inl empty ↦ inl (rw empty refl)
      | inr some_range ↦ elim (Option-cases (h.mmap m.mem (image_call e))) [
        | inl failed ↦ inl (rw some_range (rw (failed, use_mapping) refl))
        | inr (base, mapped) ↦ inr (
          base,
          rw some_range (rw (mapped, use_mapping) refl),
          laws.not_null m.mem (image_call e) base mapped,
          laws.in_space m.mem (image_call e) base mapped,
          ground (arith, some_range),
        )
      ]
    ]

pub map_extent-imaged :
    (h : Host) (e : Extent) (base : ℕ) (m : Machine)
    → e.min_vmaddr < e.max_vmaddr
    → e.max_vmaddr < 2 ^ 64
    → h.mmap m.mem (image_call e) ≡ some base
    → map_extent h e m ≡ ok success (imaged m e base)
unfolding map_extent use_mapping ◌>>=◌
map_extent-imaged h e base m some_range small mapped =
    let valid : (e.min_vmaddr == 2 ^ 64 - 1 || leb e.max_vmaddr e.min_vmaddr) ≡ false =
      ground arith in
    rw valid (rw (mapped, use_mapping) refl)

pub map_extent-refused :
    (h : Host) (e : Extent) (m : Machine)
    → h.mmap m.mem (image_call e) ≡ none
    → map_extent h e m ≡ ok failure m
unfolding map_extent use_mapping ◌>>=◌
map_extent-refused h e m failed =
    elim (Bool-cases (e.min_vmaddr == 2 ^ 64 - 1 || leb e.max_vmaddr e.min_vmaddr)) [
      | inl empty ↦ rw empty refl
      | inr some_range ↦ rw some_range (rw (failed, use_mapping) refl)
    ]
