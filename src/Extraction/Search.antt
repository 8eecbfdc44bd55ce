-- ===== src/Extraction/Search.antt =====
-- src/extraction/utils.py: the two uses of the vector index. The embeddings of OpenAI and the index
-- of Pinecone are behind `Index` (is a vector written, and the text of the exception if not) and
-- behind `query` (the matches, or `none` for an exception).
use vici.Base.{ℕ, Bool, Option, none, some, List, [], ◌∷◌}
use vici.Base.Texts.{Text}

-- A vector to be written: the arguments of `write_job_embedding`.
pub record Vector : Type 0 where
  pub job_id : ℕ
  pub description : Text
  pub phone_hash : Text

pub record Index : Type 0 where
  pub accepts : Vector → Bool
  pub error : Vector → Text

module _ {Score : Type 0} where
  abbrev add_match : Option ℕ → Score → List (ℕ × Score) → List (ℕ × Score)
  add_match none score ranked = ranked
  add_match (some job_id) score ranked = (job_id, score) ∷ ranked

  -- The loop over the matches: an id that `int` refuses is passed over.
  unfoldable ranked_of : (Text → Option ℕ) → List (Text × Score) → List (ℕ × Score)
  ranked_of int [] = []
  ranked_of int ((id, score) ∷ matches) = add_match (int id) score (ranked_of int matches)

  unfoldable search_job_embeddings :
      (Text → ℕ → Option (List (Text × Score)))
      → (Text → Option ℕ)
      → Text
      → ℕ
      → Option (List (ℕ × Score))
  unfolding ranked_of
  search_job_embeddings query int query_text top_k = elim (query query_text top_k) [
    | none ↦ none
    | some matches ↦ some (ranked_of int matches)
  ]
