-- ===== src/Suite/Texts.antt =====
-- The test of `format_bytes` in debug.rs.
use tx2_link.Common.{◌*◌, ◌≡◌, refl, Bool, true, ◌&&◌}
use tx2_link.Common.Text.{show}
use tx2_link.Common.Maps.{◌=?◌, string_key}
use tx2_link.Float.{FloatOps}
use tx2_link.Debug.{FloatText}
use tx2_link.Debug.Texts.{format_bytes, in_unit, kb, mb, gb}

module _ (floats : FloatOps) (texts : FloatText) where
  unfoldable test_format_bytes : Bool
  unfolding format_bytes
  test_format_bytes =
      (format_bytes floats texts 500 =? "500 bytes")
      && (format_bytes floats texts 1024 =? "1.00 KB")
      && (format_bytes floats texts 1536 =? "1.50 KB")
      && (format_bytes floats texts (1024 * 1024) =? "1.00 MB")
      && (format_bytes floats texts (1024 * 1024 * 1024) =? "1.00 GB")

  -- Where these quotients print as they should.
  test_format_bytes_passes :
      in_unit floats texts kb 1024 ≡ "1.00"
      → in_unit floats texts kb 1536 ≡ "1.50"
      → in_unit floats texts mb (1024 * 1024) ≡ "1.00"
      → in_unit floats texts gb (1024 * 1024 * 1024) ≡ "1.00"
      → test_format_bytes ≡ true
  unfolding test_format_bytes format_bytes show
  test_format_bytes_passes k k' m g = rw (k, k', m, g) refl
