-- ===== src/Uploads/Accepted.antt =====
-- What the uploads that features/uploaded-file/upload-security.ts accepts are like.
use sdcorejs_nestjs.Base.{
  ℕ, ◌≡◌, refl, ◌∙◌, subst, ap, ◌≤◌, Bool, true, false, not, ◌||◌, none, some, List, Text, text_eq,
  text_eq_sound, length, is_empty, leb, arith, not-true, leb_sound,
}
use sdcorejs_nestjs.Uploads.Bytes.{>>=-some, require-some, some_inj}
use sdcorejs_nestjs.Uploads.Names.{or_text, sanitize_original_file_name}
use sdcorejs_nestjs.Uploads.Contained.{IsContainer, validate_ooxml_container-IsContainer}
use sdcorejs_nestjs.Uploads.Security.{
  Codecs, main_part_of, extension_mime, detect_strong_mime, ValidatedUpload,
  validate_practical_signature, extension_of, declared_type, detected_type, is_allowed,
  is_compatible, matches_strong, validate_upload_buffer,
}

pub record IsAccepted (codecs : Codecs) (buffer : List ℕ) (file_name : Text) (allowed : List Text)
    (checked : Bool) (max_bytes : ℕ) (r : ValidatedUpload) : Type 0 where
  pub not_empty : is_empty buffer ≡ false
  pub small : length buffer ≤ max_bytes
  pub named : r.original_name ≡ sanitize_original_file_name file_name
  pub extension : extension_mime (extension_of codecs r.original_name) ≡ some r.content_type
  pub listed : is_allowed codecs allowed r.content_type ≡ true
  pub compatible : is_compatible (detect_strong_mime buffer) r.content_type ≡ true
  pub container :
      (main_part : Text)
      → checked ≡ true
      → main_part_of r.content_type ≡ some main_part
      → IsContainer codecs.decode_utf8 buffer main_part
  pub plain :
      checked ≡ true
      → main_part_of r.content_type ≡ none
      → matches_strong codecs buffer r.content_type (detect_strong_mime buffer) ≡ true

module _ (codecs : Codecs) (buffer : List ℕ) where
  signature-IsContainer :
      (mime main_part : Text)
      → validate_practical_signature codecs buffer mime ≡ true
      → main_part_of mime ≡ some main_part
      → IsContainer codecs.decode_utf8 buffer main_part
  unfolding validate_practical_signature
  signature-IsContainer mime main_part h e =
      validate_ooxml_container-IsContainer codecs.decode_utf8 buffer main_part (rw e at h)

  signature-matches :
      (mime : Text)
      → validate_practical_signature codecs buffer mime ≡ true
      → main_part_of mime ≡ none
      → matches_strong codecs buffer mime (detect_strong_mime buffer) ≡ true
  unfolding validate_practical_signature
  signature-matches mime h e = rw e at h

  passes :
      (checked : Bool) (mime : Text)
      → (not checked || validate_practical_signature codecs buffer mime) ≡ true
      → checked ≡ true
      → validate_practical_signature codecs buffer mime ≡ true
  passes checked mime h on = ground arith

-- An upload that is accepted is not empty and not too large, its extension stands for its type, the
-- type is one of the allowed ones, and the sniffing of its bytes, which ignores the highest bit of
-- each byte in what it takes for GIF, WebP and PDF, finds no type, this type or a zip for an OOXML
-- type. With the signature's check on, an OOXML upload is a bounded container with the part of its
-- type, and for any other upload the sniffing finds exactly its type, or it finds none and the upload
-- is plain text, CSV or JSON without a zero byte that decodes, and that also parses for JSON.
pub validate_upload_buffer-IsAccepted :
    (codecs : Codecs) (buffer : List ℕ) (file_name declared : Text) (allowed : List Text)
    (checked : Bool) (max_bytes : ℕ) (r : ValidatedUpload)
    → validate_upload_buffer codecs buffer file_name declared allowed checked max_bytes ≡ some r
    → IsAccepted codecs buffer file_name allowed checked max_bytes r
unfolding validate_upload_buffer
validate_upload_buffer-IsAccepted codecs buffer file_name declared allowed checked max_bytes r
      found =
    let name = sanitize_original_file_name file_name in
    let (not_empty, h1) = require-some (not (is_empty buffer)) _ found in
    let (small, h2) = require-some (leb (length buffer) max_bytes) _ h1 in
    let (by_extension, extension, h3) = >>=-some (extension_mime (extension_of codecs name)) _ h2 in
    let mime =
      or_text (declared_type codecs declared)
        (detected_type (detect_strong_mime buffer) by_extension) in
    let (listed, h4) = require-some (is_allowed codecs allowed mime) _ h3 in
    let (agrees, h5) = require-some (text_eq by_extension mime) _ h4 in
    let (compatible, h6) = require-some (is_compatible (detect_strong_mime buffer) mime) _ h5 in
    let (signed, h7) =
      require-some (not checked || validate_practical_signature codecs buffer mime) _ h6 in
    let same : by_extension ≡ mime = text_eq_sound by_extension mime agrees in
    let result : ValidatedUpload = record { content_type = mime; original_name = name } in
    subst (IsAccepted codecs buffer file_name allowed checked max_bytes) (some_inj result r h7)
      (record {
        not_empty = not-true (is_empty buffer) not_empty;
        small = leb_sound (length buffer) max_bytes small;
        named = refl;
        extension = extension ∙ ap some same;
        listed = listed;
        compatible = compatible;
        container = λ main_part on e.
            signature-IsContainer codecs buffer mime main_part
              (passes codecs buffer checked mime signed on) e;
        plain = λ on e.
            signature-matches codecs buffer mime (passes codecs buffer checked mime signed on) e;
      })
