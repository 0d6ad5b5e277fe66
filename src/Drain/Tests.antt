-- ===== src/Drain/Tests.antt =====
-- The embedding drain at concrete inputs.
use Prim.Native.String.{◌++◌}
use whatsrust.Prelude.{◌≡◌, ◌≢◌, refl, String, true, none, some, List, [], ◌∷◌, arith}
use whatsrust.Store.Db.{empty}
use whatsrust.Drain.Text.{
  after_bracket, bare_text, take_chars, truncated, cut, prepare_text_for_embedding,
  prepare_text_for_embedding-caption,
}
use whatsrust.Drain.Guards.{HealthStatus, ok, loading, LoadingTimer, new_cooldown}
use whatsrust.Drain.Worker.{Config, Cycle, start, run_turns}
use whatsrust.Drain.Worker.Sane.{IsUsable, IsSane, run_turns-IsSane}

cut_hello : prepare_text_for_embedding "text" (some "hello") (some 3) ≡ some "hel"
unfolding prepare_text_for_embedding bare_text cut truncated take_chars
cut_hello = refl

label_clean : after_bracket "[image 40KB" ≡ none
unfolding after_bracket
label_clean = refl

abbrev dog : String
dog = "a dog"

some_text : dog ≢ ""
some_text same = cc

prepare_text_for_embedding-caption_example :
    prepare_text_for_embedding "image" (some ("[image 40KB" ++ ("]" ++ (" " ++ "a dog")))) none
    ≡ some "a dog"
prepare_text_for_embedding-caption_example =
    prepare_text_for_embedding-caption "image" "[image 40KB" "a dog" refl label_clean some_text

abbrev two_ids : List String
two_ids = "m1" ∷ "m2" ∷ []

some_ids : two_ids ≢ []
some_ids same = cc

abbrev a_timer : LoadingTimer
a_timer = record { loading_since = none; timeout = 60 }

not_loading : ok ≢ loading
not_loading same = cc

abbrev a_config : Config
a_config = record {
  model_id = "e5";
  max_batch = some 16;
  max_input_tokens = some 512;
  configured_batch_size = 32;
  backoff_cap = 60;
  loading_timeout = 60;
  failure_threshold = 5;
}

a_config-IsUsable : IsUsable a_config
a_config-IsUsable = (omega arith, omega arith, omega arith)

abbrev sick : Cycle
sick = record {
  health = HealthStatus.error "down";
  now = 7;
  fetch_works = true;
  mark_works = λ id. true;
  vectors = none;
  write_works = true;
}

run_turns-IsSane_example :
    IsSane a_config
      (run_turns a_config
        (sick ∷ sick ∷ record sick { health = ok } ∷ [])
        (start a_config new_cooldown)
        empty).0
run_turns-IsSane_example =
    run_turns-IsSane a_config a_config-IsUsable (sick ∷ sick ∷ record sick { health = ok } ∷ [])
      new_cooldown empty
