-- ===== src/Parsing.antt =====
-- What a parser returns: backend/src/app/domain/parsing.py, with the fields of a block that chunking
-- reads. A box is of any type with a decidable equality: the program passes boxes on and compares
-- them.
use normeon_german_technical.Prelude.{ℕ, Text, Bool, Option, List}

pub record Block (B : Type 0) : Type 0 where
  pub text : Text
  pub page : ℕ
  pub bbox : B
  pub is_title : Bool
  pub section_path : Option Text

-- `ocr_pages` is a set, taken as a list.
pub record ParsedDocument (B : Type 0) : Type 0 where
  pub blocks : List (Block B)
  pub ocr_pages : List ℕ
