-- ===== src/Store/Messages/Pending.antt =====
-- Which messages the embedding drain is handed (src/storage.rs, `fetch_pending_embeddings` and
-- `write_embedding_batch`).
use whatsrust.Prelude.{
  ℕ, suc, zero, ◌≤◌, ◌≡◌, refl, String, Bool, true, false, ◌&&◌, ◌||◌, List, [], ◌∷◌, arith, eq_iff,
  str_eq, take, length, max, is_some,
}
use whatsrust.Prelude.Int.{ℤ, pos_part}
use whatsrust.Prelude.Table.{keep-All, All, All-map, first_where}
use whatsrust.Store.Db.{Db, MessageRow, EmbeddingKey}
use whatsrust.Store.Jobs.{is_embedded, is_unembedded}
use whatsrust.Store.Messages.{
  fetch_pending_embeddings, put_embedding, put_embeddings, write_embedding_batch,
}

abbrev pub embedded : String → String → List EmbeddingKey → Bool
embedded id model es = is_some (first_where (is_embedded id model) es)

abbrev pub has_text : String → List String → Bool
has_text id [] = false
has_text id (x ∷ xs) = str_eq x id || has_text id xs

-- After one write exactly the written key is there besides what was there.
embedded-put_embedding :
    (id model id' model' : String) (es : List EmbeddingKey)
    → embedded id model (put_embedding id' model' es)
      ≡ ((str_eq id' id && str_eq model' model) || embedded id model es)
unfolding put_embedding first_where
embedded-put_embedding id model id' model' [] = ground arith
embedded-put_embedding id model id' model' (e ∷ es) = ground (
  arith,
  eq_iff e.message_id id',
  eq_iff e.model_id model',
  eq_iff e.message_id id,
  eq_iff e.model_id model,
  eq_iff id' id,
  eq_iff model' model,
  embedded-put_embedding id model id' model' es,
)

embedded-put_embeddings :
    (id model model' : String) (ids : List String) (es : List EmbeddingKey)
    → embedded id model (put_embeddings ids model' es)
      ≡ ((has_text id ids && str_eq model' model) || embedded id model es)
unfolding put_embeddings
embedded-put_embeddings id model model' [] es = refl
embedded-put_embeddings id model model' (x ∷ ids) es = ground (
  arith,
  embedded-put_embeddings id model model' ids (put_embedding x model' es),
  embedded-put_embedding id model x model' es,
)

take-All {ℓ κ} : {A : Type ℓ} (P : A → Type κ) (n : ℕ) (xs : List A) → All P xs → All P (take n xs)
take-All P zero xs h = tt
take-All P (suc n) [] h = tt
take-All P (suc n) (x ∷ xs) h = (h.0, take-All P n xs h.1)

length-take-le {ℓ} : {A : Type ℓ} (n : ℕ) (xs : List A) → length (take n xs) ≤ n
length-take-le zero xs = omega arith
length-take-le (suc n) [] = omega arith
length-take-le (suc n) (x ∷ xs) = omega (arith, length-take-le n xs)

-- A fetch gives at most the batch size, or one where that is below 1, of messages that are
-- pending and have no vector of the model.
pub fetch_pending_embeddings_lem :
    (model : String) (batch_size : ℤ) (db : Db)
    → (length (fetch_pending_embeddings model batch_size db) ≤ max (pos_part batch_size) 1)
      × All
          (λ m. is_unembedded db.embeddings model m ≡ true)
          (fetch_pending_embeddings model batch_size db)
unfolding fetch_pending_embeddings
fetch_pending_embeddings_lem model batch_size db = (
  length-take-le (max (pos_part batch_size) 1) _,
  take-All _ (max (pos_part batch_size) 1) _
      (keep-All (is_unembedded db.embeddings model) db.messages),
)

-- A message whose vector was written is not handed out again for that model; for a message that
-- the batch does not name, or for another model, a write changes nothing.
pub write_embedding_batch_lem :
    (ids : List String) (model model' : String) (vectors : ℕ) (batch_size : ℤ) (m : MessageRow)
    (db : Db)
    → (has_text m.message_id (take vectors ids) && str_eq model model') ≡ false
    → let db' = write_embedding_batch ids model vectors db in
      All
        (λ x. has_text x.message_id (take vectors ids) ≡ false)
        (fetch_pending_embeddings model batch_size db')
      × (is_unembedded db'.embeddings model' m ≡ is_unembedded db.embeddings model' m)
unfolding write_embedding_batch is_unembedded
write_embedding_batch_lem ids model model' vectors batch_size m db other = (
  All-map _
      (λ x h. ground (
        arith,
        h,
        eq_iff model model,
        embedded-put_embeddings x.message_id model model (take vectors ids) db.embeddings,
      ))
      (fetch_pending_embeddings_lem model batch_size
        (write_embedding_batch ids model vectors db)).1,
  ground (
    arith,
    other,
    embedded-put_embeddings m.message_id model' model (take vectors ids) db.embeddings,
  ),
)
