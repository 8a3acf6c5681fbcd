-- ===== src/Desirectl/Manifests/Streams.antt =====
-- What readManifestFiles finds in files that hold several documents with lines of three dashes between
-- them.
use rosa_hyperfleet_kube_app.Prelude.{
  ℕ, ◌≡◌, refl, ap, ◌∙◌, Bool, true, false, ◌||◌, List, [], ◌∷◌, ◌++◌,
}
use rosa_hyperfleet_kube_app.Desirectl.Manifests.{
  Bytes, newline, dashes, starts_with, put_front, split_bytes, is_empty, keep_documents,
  split_yaml_documents,
}

-- What the documentation of bytes.TrimSpace says, for a newline.
pub record IsTrimming (trim_space : Bytes → Bytes) : Type 0 where
  pub trim-empty : trim_space [] ≡ []
  pub trim-before : (s : Bytes) → trim_space (newline ∷ s) ≡ trim_space s
  pub trim-after : (s : Bytes) → trim_space (s ++ newline ∷ []) ≡ trim_space s

-- Whether the separator occurs.
abbrev pub has_marker : Bytes → Bool
has_marker [] = false
has_marker (c ∷ s) = starts_with (newline ∷ dashes) (c ∷ s) || has_marker s

-- A document has no line that begins with three dashes, no white space around it, and is not empty.
pub record IsDocument (trim_space : Bytes → Bytes) (doc : Bytes) : Type 0 where
  pub unmarked : has_marker (newline ∷ doc) ≡ false
  pub trimmed : trim_space doc ≡ doc
  pub present : is_empty doc ≡ false

abbrev pub AreDocuments : (Bytes → Bytes) → List Bytes → Type 0
AreDocuments trim_space [] = Unit
AreDocuments trim_space (doc ∷ docs) = IsDocument trim_space doc × AreDocuments trim_space docs

-- The documents after the first, each after a line of three dashes.
abbrev pub continued : List Bytes → Bytes
continued [] = []
continued (doc ∷ docs) = dashes ++ newline ∷ (doc ++ newline ∷ continued docs)

abbrev pub yaml_stream : List Bytes → Bytes
yaml_stream [] = []
yaml_stream (doc ∷ docs) = doc ++ newline ∷ continued docs

-- Bytes in front of the first piece.
abbrev put_all : Bytes → List Bytes → List Bytes
put_all [] pieces = pieces
put_all (c ∷ s) pieces = put_front c (put_all s pieces)

put_all_first :
    (s piece : Bytes) (pieces : List Bytes) → put_all s (piece ∷ pieces) ≡ (s ++ piece) ∷ pieces
put_all_first [] piece pieces = refl
put_all_first (c ∷ s) piece pieces = ap (put_front c) (put_all_first s piece pieces)

append_nil : (s : Bytes) → s ++ [] ≡ s
append_nil [] = refl
append_nil (c ∷ s) = ap (λ t. c ∷ t) (append_nil s)

-- A newline ends what the separator could go on with.
dashes-newline : (s rest : Bytes) → starts_with dashes (s ++ newline ∷ rest) ≡ starts_with dashes s
unfolding starts_with
dashes-newline [] rest = refl
dashes-newline (a ∷ []) rest = refl
dashes-newline (a ∷ b ∷ []) rest = refl
dashes-newline (a ∷ b ∷ c ∷ s) rest = refl

starts_newline :
    (c : ℕ) (s rest : Bytes)
    → starts_with (newline ∷ dashes) ((c ∷ s) ++ newline ∷ rest)
      ≡ starts_with (newline ∷ dashes) (c ∷ s)
unfolding starts_with
starts_newline c s rest = rw (starts_with, dashes-newline s rest)

both_false : (a b : Bool) → (a || b) ≡ false → (a ≡ false) × (b ≡ false)
both_false true b h = absurd (cc h)
both_false false b h = (refl, h)

split_byte :
    (c : ℕ) (s : Bytes)
    → starts_with (newline ∷ dashes) (c ∷ s) ≡ false
    → split_bytes 0 (c ∷ s) ≡ put_front c (split_bytes 0 s)
unfolding split_bytes
split_byte c s h =
    ap (λ b. elim b [ true ↦ [] ∷ split_bytes 3 s | false ↦ put_front c (split_bytes 0 s) ]) h

split_before :
    (s rest : Bytes)
    → has_marker s ≡ false
    → split_bytes 0 (s ++ newline ∷ rest) ≡ put_all s (split_bytes 0 (newline ∷ rest))
unfolding split_bytes
split_before [] rest h = refl
split_before (c ∷ s) rest h =
    let none_of = both_false (starts_with (newline ∷ dashes) (c ∷ s)) (has_marker s) h in
    split_byte c (s ++ newline ∷ rest) (starts_newline c s rest ∙ none_of.0)
    ∙ ap (put_front c) (split_before s rest none_of.1)

module _ {trim_space : Bytes → Bytes} (law : IsTrimming trim_space) where
  open law use {trim-empty, trim-before, trim-after}

  -- A piece that is a document when it is trimmed, and the documents that follow it.
  keep_continued :
      (docs : List Bytes) (piece doc : Bytes)
      → trim_space piece ≡ doc
      → is_empty doc ≡ false
      → AreDocuments trim_space docs
      → keep_documents trim_space (put_all piece (split_bytes 0 (newline ∷ continued docs)))
        ≡ doc ∷ docs
  unfolding split_bytes starts_with
  keep_continued [] piece doc h full all =
      rw (put_all_first piece (newline ∷ []) [], trim-after piece, h, full)
  keep_continued (next ∷ docs) piece doc h full (is_doc, all) =
      let later =
        keep_continued docs (newline ∷ next) next (trim-before next ∙ is_doc.trimmed) is_doc.present
          all in
      (rw (
        split_before (newline ∷ next) (continued docs) is_doc.unmarked,
        put_all_first piece []
            (put_all (newline ∷ next) (split_bytes 0 (newline ∷ continued docs))),
        append_nil piece,
        h,
        full,
        later,
      ))

  -- Documents that are written with such lines between them are found again.
  pub split_yaml_documents-yaml_stream :
      (docs : List Bytes)
      → AreDocuments trim_space docs
      → split_yaml_documents trim_space (yaml_stream docs) ≡ docs
  unfolding split_yaml_documents split_bytes
  split_yaml_documents-yaml_stream [] all = rw trim-empty
  split_yaml_documents-yaml_stream (doc ∷ docs) (is_doc, all) =
      ap (keep_documents trim_space) (
        split_before doc (continued docs)
          (both_false (starts_with (newline ∷ dashes) (newline ∷ doc)) (has_marker doc)
            is_doc.unmarked).1)
      ∙ keep_continued docs doc doc is_doc.trimmed is_doc.present all
