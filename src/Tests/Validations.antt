-- ===== src/Tests/Validations.antt =====
-- A config of version 1.0 with an integer keyval and a section with a string keyval, below it.
use disir_c.Prelude.{
  refl, ℕ, none, some, ◌≡◌, ◌≢◌, true, false, List, [], ◌∷◌, filter, if◌then◌else◌,
}
use disir_c.Prelude.Int.{ℤ, pos}
use disir_c.Value.{ValueType, integer, string, unknown}
use disir_c.Version.{version}
use disir_c.Restriction.{Restriction, exc_value_range, inc_entry_max}
use disir_c.Validate.{
  Flags, MoldElement, Keyval, Section, Nodes, keyval, section, end, node, Config,
}
use disir_c.Validate.Values.{Parent}
use disir_c.Validate.Tree.{validate_config}
use disir_c.Validate.Conforms.{passes, conforms, all_conform}
use disir_c.Validate.Whole.{validate_config-conforms}
use disir_c.Validate.Invalid.{invalid_elements}
use disir_c.Validate.Tree.{validate_node}
use disir_c.Validate.Invalid.Whole.{validate_config-invalid_elements}
use disir_c.Validate.Invalid.Listed.{in_state, listed, invalid_elements-filter}
use disir_c.Restriction.Permits.{any}
use disir_c.Status.{ok, invalid_context}
use disir_c.Tests.Restrictions.{doubles, entry}

abbrev building : Flags
building = record { constructing = true; finalized = false; invalid = false; fatal = false }

abbrev done : Flags
done = record { constructing = false; finalized = true; invalid = false; fatal = false }

abbrev described : ℕ → ValueType → List (Restriction doubles) → MoldElement doubles
described c kind rules = record {
  name = c ∷ [];
  value_type = kind;
  introduced = some (version 1 0);
  deprecated = version 0 0;
  restrictions = rules;
}

abbrev small : MoldElement doubles
small = described 110 integer (entry exc_value_range (version 1 0) (pos 1) (pos 9) ∷ [])

abbrev text : MoldElement doubles
text = described 116 string []

abbrev part : MoldElement doubles
part = described 112 unknown (entry inc_entry_max (version 1 0) (pos 3) (pos 3) ∷ [])

abbrev number : ℤ → Keyval doubles
number n = record {
  kv_name = 110 ∷ [];
  value_type = integer;
  dv_integer = n;
  dv_float = pos 0;
  dv_string = none;
  kv_mold_equiv = some small;
}

abbrev words : Keyval doubles
words = record {
  kv_name = 116 ∷ [];
  value_type = string;
  dv_integer = pos 0;
  dv_float = pos 0;
  dv_string = some (97 ∷ []);
  kv_mold_equiv = some text;
}

abbrev inner : Section doubles
inner = record { se_name = 112 ∷ []; se_mold_equiv = some part; mold_elements = text ∷ [] }

abbrev tree : ℤ → Nodes doubles
tree n =
    node (keyval done (number n)) (node (section done inner (node (keyval done words) end)) end)

abbrev config : ℤ → Config doubles
config n = record {
  flags = building;
  cf_version = version 1 0;
  mold_elements = small ∷ part ∷ [];
  cf_elements = tree n;
}

abbrev top : Parent
top = record { finalized = true; names = (112 ∷ []) ∷ [] }

validate_config-conforms_example : passes (validate_config doubles (pos 0) (config (pos 7))) ≡ true
unfolding conforms all_conform
validate_config-conforms_example = validate_config-conforms doubles (pos 0) (config (pos 7))

integer≢unknown : integer ≢ unknown
integer≢unknown = λ e. cc

invalid_elements-filter_example :
    (invalid_elements doubles (config (pos 7)) true ≡ (
      if any (in_state doubles false) (listed doubles (config (pos 7)))
          then invalid_context
          else ok,
      filter (in_state doubles false) (listed doubles (config (pos 7))),
    ))
    × ((invalid_elements doubles (config (pos 7)) false).0
        ≡ (invalid_elements doubles (config (pos 7)) true).0)
invalid_elements-filter_example = invalid_elements-filter doubles (config (pos 7))

validate_config-invalid_elements_example : (invalid_elements doubles (config (pos 7)) true).0 ≡ ok
unfolding validate_node
validate_config-invalid_elements_example =
    validate_config-invalid_elements doubles (pos 0) (config (pos 7)) (config (pos 7)) ok refl refl
