-- ===== src/Packages/Lock/Samples.antt =====
-- A lock file.
use fast_flow_transform.Prelude.{◌≡◌, refl, none, some, [], ◌∷◌}
use fast_flow_transform.Prelude.Results.{returns, raises}
use fast_flow_transform.Packages.Lock.{
  LockFile, key_error, text, to_mapping, from_mapping, from_mapping-to_mapping,
}

abbrev locked : LockFile
locked = record {
  fft_version = some "0.9.0";
  entries =
      (record {
        name = "core";
        version = "1.2.0";
        source = record {
          kind = "git";
          path = none;
          git = some "https://example.org/core";
          rev = some "abc";
          subdir = none;
        };
      })
      ∷ [];
}

no_name :
    from_mapping
      (record { fft_version = none; packages = some ((("version", text "1") ∷ []) ∷ []) })
    ≡ raises (key_error "name")
unfolding from_mapping
no_name = refl

from_mapping-to_mapping_example : from_mapping (to_mapping locked) ≡ returns locked
from_mapping-to_mapping_example = from_mapping-to_mapping locked
