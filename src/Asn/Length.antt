-- ===== src/Asn/Length.antt =====
-- Lengths: what `format_length_area` writes, `parse_length_area` reads, starting from 0.
