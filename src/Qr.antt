-- ===== src/Qr.antt =====
-- crates/qr/src/lib.rs. The crates qrcode, image and base64 and the file system are not in the
-- repository: `QrLib` holds what is called of them.
use lightining_pass.Base.{ℕ, Bool, false, Result, ok, ◌>>=◌, ◌++◌, Text, Bytes, codes}

pub record QrLib : Type 1 where
  pub QrCode : Type 0
  pub Image : Type 0
  -- `QrCode::new(payload.as_bytes())`
  pub new_code : Text → Result QrCode Text
  pub render_chars : QrCode → (quiet_zone : Bool) → (module_dimensions : ℕ × ℕ) → Text
  pub render_luma : QrCode → (max_dimensions : ℕ × ℕ) → Image
  pub save : Image → (path : Text) → Result (Unit {0}) Text
  -- `PngEncoder::write_image` of the raw image as L8, into a buffer
  pub write_png : Image → Result Bytes Text
  pub encode_base64 : Bytes → Text

module _ (lib : QrLib) where
  unfoldable pub render_ascii_qr : Text → Result Text Text
  render_ascii_qr payload = do code ← lib.new_code payload; ok (lib.render_chars code false (2, 1))

  unfoldable pub render_png_qr : Text → Text → ℕ → Result (Unit {0}) Text
  render_png_qr payload path size = do
    code ← lib.new_code payload
    let image = lib.render_luma code (size, size)
    lib.save image path

  unfoldable pub render_png_data_url : Text → ℕ → Result Text Text
  render_png_data_url payload size = do
    code ← lib.new_code payload
    let image = lib.render_luma code (size, size)
    buf ← lib.write_png image
    let encoded = lib.encode_base64 buf
    ok (codes "data:image/png;base64," ++ encoded)

-- A library that draws every payload as itself, for the tests.
abbrev pub demo_qr : QrLib
demo_qr = record {
  QrCode = Text;
  Image = Text;
  new_code = λ t. ok t;
  render_chars = λ c q d. c;
  render_luma = λ c d. c;
  save = λ i p. ok tt;
  write_png = λ i. ok i;
  encode_base64 = λ b. b;
}
