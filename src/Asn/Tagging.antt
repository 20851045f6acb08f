-- ===== src/Asn/Tagging.antt =====
-- Tags: what `format_tagging_area` writes, `parse_tagging_area` reads.
use test.Prelude.{
  ℕ, ◌≤◌, ◌<◌, ◌≡◌, refl, List, ◌++◌, some, arith, leb, if◌then◌else◌, length, Bool-cases, inl, inr,
}
use test.Prelude.Int.{pos}
use test.Asn.{format_tagging_area, parse_tagging_area}

-- A tag of a class below 4, a coding below 2 and a number of at most 127 is read back from the
-- bytes written, whatever follows them, and exactly those bytes are used: one for a number of at
-- most 30, two for a larger one.
pub parse_tagging_area-format_tagging_area :
    (class codec value : ℕ) (rest : List ℕ)
    → class < 4
    → codec < 2
    → value ≤ 127
    → let area = format_tagging_area class codec (pos value) in
      (parse_tagging_area (area ++ rest)
        ≡ some (record { used = length area; class = class; codec = codec; value = value }))
      × (length area ≡ (if leb value 30 then 1 else 2))
unfolding format_tagging_area parse_tagging_area
parse_tagging_area-format_tagging_area class codec value rest a b c =
    elim (Bool-cases (leb value 30)) [
      | inl e ↦ rw e (ground arith, refl)
      | inr e ↦ rw e (ground arith, ground arith)
    ]
