-- ===== src/Scripts/ChunkChainSpike/Laws.antt =====
-- What exit code 0 of the script says.
use docling_serve_ray.Prelude.{
  ℕ, ◌≡◌, refl, ap, sym, ◌∙◌, Bool, true, false, ◌||◌, not, Option, none, some, List, [], ◌∷◌, ◌++◌,
  arith, ◌==◌, length, subst,
}
use docling_serve_ray.Text.{Text, codes}
use docling_serve_ray.Text.Laws.{str_eq_iff}
use docling_serve_ray.Dict.{contains}
use docling_serve_ray.Result.{ok}
use docling_serve_ray.Json
use docling_serve_ray.Json.{Json}
use docling_serve_ray.Http.{Response}
use docling_serve_ray.Facade.Backend.{transport, unexpected, return, raise}
use docling_serve_ray.Facade.Backend.Laws.{
  Ensures, Ensures-ok, Ensures-mono, Ensures-raise, Ensures-return, Ensures-if, Ensures-then_run,
  Ensures-expect, Ensures-expect_shape, Ensures-check,
}
use docling_serve_ray.Scripts.ChunkChainSpike.{
  get_list, elements, get_each, error_messages, only_success, has_first, all_sliceable, SpikeTools,
  bucket, out_prefix, poll_until, result_of, verdict, judge, judge_ended, chunk_body, main,
}

-- The values under a key, one by one.
abbrev Gets : Text → List Json → List (Option Json) → Type 0
Gets k [] [] = Unit
Gets k [] (j ∷ js) = ⊥
Gets k (d ∷ ds) [] = ⊥
Gets k (d ∷ ds) (j ∷ js) = (Json.get k d ≡ ok j) × Gets k ds js

get_each-Gets :
    {W : Type 0} (k : Text) (ds : List Json) (w : W)
    → Ensures (λ js v. Gets k ds js) (get_each k ds w)
unfolding get_each
get_each-Gets k [] w = Ensures-return (λ js v. Gets k [] js) [] w tt
get_each-Gets {W} k (d ∷ ds) w =
    let Q : List (Option Json) → W → Type 0 = λ js v. Gets k (d ∷ ds) js in
    Ensures-expect_shape Q (Json.get k d) w _ (λ j got.
      Ensures-then_run Q (get_each k ds w) _ (λ js v rest.
        Ensures-return Q (j ∷ js) v
          (got, Ensures-ok (λ js v. Gets k ds js) rest (get_each-Gets k ds w))))

-- What a result says that the script accepts: one document, which succeeded, and at least one chunk.
pub record IsChunked (result : Json) : Type 0 where
  pub documents : Json
  pub document : Json
  pub chunks : Json
  pub chunk : Json
  pub others : List Json
  pub has_documents : get_list (codes "documents") result ≡ some documents
  pub only_one : elements documents ≡ some (document ∷ [])
  pub succeeded : Json.get (codes "status") document ≡ ok (some (Json.str (codes "success")))
  pub has_chunks : get_list (codes "chunks") result ≡ some chunks
  pub not_empty : elements chunks ≡ some (chunk ∷ others)

only_success-eq :
    (statuses : List (Option Json))
    → only_success statuses ≡ true
    → statuses ≡ some (Json.str (codes "success")) ∷ []
unfolding only_success
only_success-eq (some (Json.str s) ∷ []) h =
    ap (λ t. some (Json.str t) ∷ []) ((str_eq_iff s (codes "success")).0 h)
only_success-eq _ h = cc

Gets-only :
    (docs : List Json)
    → Gets (codes "status") docs (some (Json.str (codes "success")) ∷ [])
    → (d : Json) × (docs ≡ d ∷ [])
      × (Json.get (codes "status") d ≡ ok (some (Json.str (codes "success"))))
Gets-only [] g = absurd g
Gets-only (d ∷ []) (got, tt) = (d, refl, got)
Gets-only (d ∷ e ∷ ds) (got, more) = absurd more

-- What exit code 0 says of the statuses and the chunks.
record Accepts (statuses : List (Option Json)) (chunks : Json) : Type 0 where
  only : only_success statuses ≡ true
  chunk : Json
  others : List Json
  found : elements chunks ≡ some (chunk ∷ others)

accepted :
    (statuses : List (Option Json)) (chunks : Json) (found : List Json)
    → elements chunks ≡ some found
    → (not (only_success statuses) || length found == 0) ≡ false
    → Accepts statuses chunks
accepted statuses chunks [] e h = absurd (ground arith)
accepted statuses chunks (c ∷ cs) e h = record {
  only = ground (arith, h);
  chunk = c;
  others = cs;
  found = e;
}

module _ {W : Type 0} (tools : SpikeTools W) where
  verdict-Ensures :
      (statuses errors : List (Option Json)) (chunks : Json) (w : W)
      → Ensures
          (λ code v. code ≡ 0 → Accepts statuses chunks)
          (verdict tools false statuses errors chunks w)
  unfolding verdict
  verdict-Ensures statuses errors chunks w =
      let Q : ℕ → W → Type 0 = λ code v. code ≡ 0 → Accepts statuses chunks in
      Ensures-expect Q (elements chunks) w _ (λ found e.
        Ensures-if Q (not (only_success statuses) || length found == 0) _ _ w
          (λ refused. Ensures-return Q 1 w (λ z. absurd (omega (arith, z))))
          (λ passed.
            Ensures-if Q (has_first chunks) (return 0) (raise unexpected) w
              (λ first. Ensures-return Q 0 w (λ z. accepted statuses chunks found e passed))
              (λ keyed. Ensures-raise Q unexpected w)))

  judge-Ensures :
      (json_key : Text) (result : Json) (w : W)
      → Ensures (λ code v. code ≡ 0 → IsChunked result) (judge tools false json_key result w)
  unfolding judge
  judge-Ensures json_key result w =
      let Q : ℕ → W → Type 0 = λ code v. code ≡ 0 → IsChunked result in
      Ensures-expect Q _ w _ (λ documents has_documents.
        Ensures-expect Q (elements documents) w _ (λ docs are.
          Ensures-then_run Q (get_each (codes "status") docs w) _ (λ statuses u got.
            Ensures-then_run Q (error_messages docs u) _ (λ errors v messages.
              Ensures-expect Q _ v _ (λ chunks has_chunks.
                Ensures-expect Q (elements chunks) v _ (λ sized all.
                  Ensures-check Q (all_sliceable errors) unexpected v _ (λ sliceable.
                    Ensures-then_run Q (tools.list_objects bucket (out_prefix json_key) v) _
                      (λ keys x listed.
                        Ensures-mono _ Q _ (verdict-Ensures statuses errors chunks x)
                          (λ code y accepts zero.
                            let a = accepts zero in
                            let g =
                              Ensures-ok (λ js v. Gets (codes "status") docs js) got
                                (get_each-Gets (codes "status") docs w) in
                            let (d, one, status) = Gets-only docs (
                              subst (Gets (codes "status") docs) (only_success-eq statuses a.only)
                                g) in
                            record {
                              documents = documents;
                              document = d;
                              chunks = chunks;
                              chunk = a.chunk;
                              others = a.others;
                              has_documents = has_documents;
                              only_one = are ∙ ap some one;
                              succeeded = status;
                              has_chunks = has_chunks;
                              not_empty = a.found;
                            })))))))))

  -- The result of the task, as docling-serve returns it in the state `before`.
  pub record Fetched (task_id : Text) (before : W) : Type 0 where
    pub response : Response
    pub result : Json
    pub after : W
    pub fetched : tools.get (codes "/v1/result/" ++ task_id) none before ≡ (ok response, after)
    pub parsed : result_of tools response ≡ some result
    pub is_chunked : IsChunked result

  judge_ended-Ensures :
      (flag : Bool) (json_key task_id : Text) (ended : Option Json) (w : W)
      → flag ≡ false
      → Ensures
          (λ code v. code ≡ some 0 → (s : Json) × (ended ≡ some s) × Fetched task_id w)
          (judge_ended tools flag json_key task_id ended w)
  unfolding judge_ended
  judge_ended-Ensures flag json_key task_id none w off =
      Ensures-return
        (λ code v.
          code ≡ some 0 → (s : Json) × (◌≡◌ {A = Option Json} none (some s)) × Fetched task_id w)
        none w (λ z. absurd (ground arith))
  judge_ended-Ensures flag json_key task_id (some status) w off =
      let Q : Option ℕ → W → Type 0 =
        λ code v. code ≡ some 0 → (s : Json) × (some status ≡ some s) × Fetched task_id w in
      Ensures-then_run Q (tools.get (codes "/v1/result/" ++ task_id) none w) _ (λ r u fetched.
        Ensures-expect Q (result_of tools r) u _ (λ result parsed.
          Ensures-then_run Q (judge tools flag json_key result u) _ (λ code v judged.
            Ensures-return Q (some code) v (λ z. (
              status,
              refl,
              record {
                response = r;
                result = result;
                after = u;
                fetched = fetched;
                parsed = parsed;
                is_chunked =
                    Ensures-ok (λ code v. code ≡ 0 → IsChunked result)
                      (sym (ap (λ b. judge tools b json_key result u) off) ∙ judged)
                      (judge-Ensures json_key result u) (ground (arith, z));
              },
            )))))

  -- A run up to the fetched result: the submission for the key, the id in its answer, the end of
  -- the polling for that id, and the result that was fetched next.
  pub record IsRun (turns : ℕ) (json_key : Text) (w : W) : Type 0 where
    pub submitted : Response
    pub submitted_at : W
    pub task : Json
    pub id : Json
    pub task_id : Text
    pub status : Json
    pub ended_at : W
    pub posted :
        tools.post (codes "/v1/chunk/hybrid/source/async") (chunk_body tools json_key) w
        ≡ (ok submitted, submitted_at)
    pub answered : submitted.json ≡ some task
    pub indexed : Json.index (codes "task_id") task ≡ ok id
    pub named : Json.as_text id ≡ ok task_id
    pub polled : poll_until tools turns task_id submitted_at ≡ (ok (some status), ended_at)
    pub result : Fetched task_id ended_at

  -- If the script, without the flag "--expect-blocked", exits with 0, then it fetched the result of
  -- the task that it had submitted for the key and polled to its end, and that result has exactly
  -- one document, whose own status is "success", and at least one chunk.
  pub main-IsRun :
      (turns : ℕ) (script json_key : Text) (arguments : List Text) (w v : W)
      → contains (codes "--expect-blocked") (script ∷ json_key ∷ arguments) ≡ false
      → main tools turns (script ∷ json_key ∷ arguments) w ≡ (ok (some 0), v)
      → IsRun turns json_key w
  unfolding main
  main-IsRun turns script json_key arguments w v unflagged h =
      let Q : Option ℕ → W → Type 0 = λ code v. code ≡ some 0 → IsRun turns json_key w in
      Ensures-ok Q h
        (Ensures-then_run Q (tools.post _ (chunk_body tools json_key) w) _ (λ r w1 posted.
          Ensures-check Q (tools.is_success r) transport w1 _ (λ good.
            Ensures-expect Q r.json w1 _ (λ task parsed.
              Ensures-expect_shape Q (Json.index (codes "task_id") task) w1 _ (λ id indexed.
                Ensures-expect_shape Q (Json.as_text id) w1 _ (λ task_id named.
                  Ensures-then_run Q (poll_until tools turns task_id w1) _ (λ ended w2 polled.
                    Ensures-mono _ Q _ (judge_ended-Ensures _ json_key task_id ended w2 unflagged)
                      (λ code x fetched zero.
                        let (status, is_ended, result) = fetched zero in
                        record {
                          submitted = r;
                          submitted_at = w1;
                          task = task;
                          id = id;
                          task_id = task_id;
                          status = status;
                          ended_at = w2;
                          posted = posted;
                          answered = parsed;
                          indexed = indexed;
                          named = named;
                          polled = polled ∙ ap (λ e. (ok e, w2)) is_ended;
                          result = result;
                        }))))))))
        refl
