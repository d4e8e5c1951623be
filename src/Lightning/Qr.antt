-- ===== src/Lightning/Qr.antt =====
-- crates/lightning_node/src/qr.rs, a copy of the crate qr.
use lightining_pass.Base.{ℕ, false, Result, ok, ◌>>=◌, ◌++◌, Text, codes}
use lightining_pass.Qr.{QrLib}

module _ (lib : QrLib) where
  unfoldable pub render_ascii_qr : Text → Result Text Text
  render_ascii_qr payload = do code ← lib.new_code payload; ok (lib.render_chars code false (2, 1))

  unfoldable pub render_png_qr : Text → Text → ℕ → Result (Unit {0}) Text
  render_png_qr payload path size = do
    code ← lib.new_code payload
    let image = lib.render_luma code (size, size)
    lib.save image path

  unfoldable pub render_png_data_url : Text → ℕ → Result Text Text
  render_png_data_url payload size = do
    code ← lib.new_code payload
    let image = lib.render_luma code (size, size)
    buf ← lib.write_png image
    let encoded = lib.encode_base64 buf
    ok (codes "data:image/png;base64," ++ encoded)
