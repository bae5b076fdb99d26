-- ===== src/Pipelines/Images/Formats.antt =====
-- packages/pipelines/images/src/image-format.ts, and how `collectImages` of runtime.ts prepares one
-- image.
use recipe_import_from_anyth.Base.{
  ℕ, ◌+◌, Bool, false, ◌&&◌, String, append, Option, none, some, List, ◌∷◌, eqb, if◌then◌else◌,
  decimal,
}

pub record ImageDescriptor : Type 0 where
  pub extension : String
  pub mime_type : String

-- the four bytes of a key of MAGIC_NUMBERS
abbrev starts : ℕ → ℕ → ℕ → ℕ → List ℕ → Bool
starts a b c d (e ∷ f ∷ g ∷ h ∷ rest) = eqb a e && eqb b f && eqb c g && eqb d h
starts a b c d _ = false

pub detect_image_format : List ℕ → Option ImageDescriptor
detect_image_format bytes =
    if starts 0xff 0xd8 0xff 0xe0 bytes
    then some (record { extension = "jpg"; mime_type = "image/jpeg" })
    else (if starts 0xff 0xd8 0xff 0xe1 bytes
        then some (record { extension = "jpg"; mime_type = "image/jpeg" })
        else (if starts 0x89 0x50 0x4e 0x47 bytes
            then some (record { extension = "png"; mime_type = "image/png" })
            else (if starts 0x47 0x49 0x46 0x38 bytes
                then some (record { extension = "gif"; mime_type = "image/gif" })
                else (if starts 0x52 0x49 0x46 0x46 bytes
                    then some (record { extension = "webp"; mime_type = "image/webp" })
                    else none))))

pub record PreparedImage : Type 0 where
  pub input_ref : String
  pub bytes : List ℕ
  pub filename : String
  pub mime_type : String

abbrev prepared : ℕ → String → List ℕ → ImageDescriptor → PreparedImage
prepared index ref bytes descriptor = record {
  input_ref = ref;
  bytes = bytes;
  filename = append "recipe-" (append (decimal (index + 1)) (append "." descriptor.extension));
  mime_type = descriptor.mime_type;
}

pub prepare_by : ℕ → String → List ℕ → Option ImageDescriptor → Option PreparedImage
prepare_by index ref bytes none = none
prepare_by index ref bytes (some descriptor) = some (prepared index ref bytes descriptor)

-- one reference, where its input is found and has a supported format
unfoldable pub prepare : ℕ → String → Option (List ℕ) → Option PreparedImage
unfolding prepare_by detect_image_format
prepare index ref none = none
prepare index ref (some bytes) = prepare_by index ref bytes (detect_image_format bytes)
