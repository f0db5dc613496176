-- ===== src/Version/RoundTrip.antt =====
-- dc_version_convert reads back what dc_version_string writes.
use disir_c.Prelude.{ℕ, Bool, true, false, Option, none, some, List, [], ◌∷◌, ◌==◌, if◌then◌else◌}
use disir_c.Version.{Version}
use disir_c.Version.Print.{text_in}

-- No byte of the text is zero.
abbrev is_text : List ℕ → Bool
is_text [] = true
is_text (c ∷ cs) = if c == 0 then false else is_text cs

-- the text in a buffer that may be NULL
abbrev pub map_text : Option (List ℕ) → Option (List ℕ)
map_text none = none
map_text (some buffer) = some (text_in buffer)
