-- ===== src/Facade/Resolve/Cleaning.antt =====
-- What `_cleanup_task_storage` deletes.
use docling_serve_ray.Prelude.{
  ◌≡◌, ap, sym, ◌∙◌, Bool, false, ◌&&◌, ◌||◌, not, none, List, arith, if◌then◌else◌,
}
use docling_serve_ray.Result.{ok}
use docling_serve_ray.Text.{Text, str_eq}
use docling_serve_ray.Dict.{contains}
use docling_serve_ray.Facade.Schemas.{Settings}
use docling_serve_ray.Facade.Backend.{Backend}
use docling_serve_ray.Facade.Backend.Laws.{
  Ensures, Ensures-ok, Ensures-mono, Ensures-then_run, Ensures-last, Ensures-returned,
}
use docling_serve_ray.Facade.Stores.{View, IsRedis, IsObjectStore}
use docling_serve_ray.Facade.Clients.{s3_client, with_s3_client}
use docling_serve_ray.Facade.Clients.Laws.{Ensures-with_s3_client, with_s3_client-state}
use docling_serve_ray.Facade.Submit.{record_key, input_prefix, output_prefix}
use docling_serve_ray.Facade.Resolve.{
  Cleanup, delete_under, delete_both, cleanup_steps, cleanup_task_storage,
}
use docling_serve_ray.Facade.Resolve.Deleting.{
  then_run-state, is_under, delete_under-others, Reported, Reported-same, IsEmptied,
  delete_under-Ensures,
}

-- Whether an object belongs to a request: in the input or the output bucket under its prefix.
unfoldable pub is_of_request : Settings → Text → Text → Text → Bool
unfolding is_under
is_of_request settings request_id b key =
    is_under settings.s3_input_bucket (input_prefix settings request_id) b key
    || is_under settings.s3_output_bucket (output_prefix settings request_id) b key

module _ {W : Type 0} (B : Backend W) (V : View W) (store : IsObjectStore B V) where
  module _ (settings : Settings) where
    delete_both-others :
        (request_id b key : Text) (w : W)
        → is_of_request settings request_id b key ≡ false
        → V.held (delete_both B settings request_id w).1 b key ≡ V.held w b key
    unfolding delete_both is_of_request
    delete_both-others request_id b key w h =
        then_run-state (λ v. V.held v b key ≡ V.held w b key)
          (delete_under B settings settings.s3_input_bucket (input_prefix settings request_id) w) _
          (delete_under-others B V store settings settings.s3_input_bucket
            (input_prefix settings request_id) b key w (ground arith))
          λ _ v _ first.
            delete_under-others B V store settings settings.s3_output_bucket
              (output_prefix settings request_id) b key v (ground arith)
            ∙ first

    -- Whatever a clean-up meets, and whether or not it gets to its end, an object that is not under
    -- one of the two prefixes of its own request is left as it is.
    pub cleanup_task_storage-others :
        (c : Cleanup) (b key : Text) (w : W)
        → is_of_request settings c.task_record.request_id b key ≡ false
        → V.held (cleanup_task_storage B settings c w) b key ≡ V.held w b key
    unfolding cleanup_task_storage cleanup_steps
    cleanup_task_storage-others c b key w h =
        let request_id = c.task_record.request_id in
        let P = λ (v : W). V.held v b key ≡ V.held w b key in
        let body = delete_both B settings request_id in
        then_run-state P (with_s3_client B settings body w) _
          (with_s3_client-state B settings body w P
            ((store.open_s3-SameHeld (s3_client settings) w).at b key)
            (λ v same. delete_both-others request_id b key v h ∙ same)
            (λ u same. (store.close_s3-SameHeld u).at b key ∙ same))
          λ _ u _ same. (store.redis_delete-SameHeld (record_key c.task_id) u).at b key ∙ same

    module _ (redis : IsRedis B V) where
      -- The objects of a request are gone but those for which the store's two responses report
      -- errors, and no others; Redis has lost the task's value and no other.
      pub record IsCleaned (c : Cleanup) (w v : W) : Type 0 where
        pub input_errors : List Text
        pub output_errors : List Text
        pub inputs_reported :
            Reported B V store settings settings.s3_input_bucket
              (input_prefix settings c.task_record.request_id)
              (V.held w)
              input_errors
        pub outputs_reported :
            Reported B V store settings settings.s3_output_bucket
              (output_prefix settings c.task_record.request_id)
              (λ b key.
                V.held w b key
                && not (
                    is_under settings.s3_input_bucket
                      (input_prefix settings c.task_record.request_id)
                      b
                      key
                    && not (contains key input_errors)))
              output_errors
        pub emptied :
            (b key : Text)
            → V.held v b key ≡ (
                V.held w b key
                && not (
                    (is_under settings.s3_input_bucket
                        (input_prefix settings c.task_record.request_id)
                        b
                        key
                      && not (contains key input_errors))
                    || (is_under settings.s3_output_bucket
                          (output_prefix settings c.task_record.request_id)
                          b
                          key
                        && not (contains key output_errors))))
        pub forgotten :
            (j : Text)
            → V.stored v j ≡ (if str_eq (record_key c.task_id) j then none else V.stored w j)

      -- The same of the loop over the two places, Redis apart.
      record AreEmptied (request_id : Text) (w : W) (a : Unit {0}) (v : W) : Type 0 where
        kept : (j : Text) → V.stored v j ≡ V.stored w j
        middle : W
        inputs :
            IsEmptied B V store settings settings.s3_input_bucket
              (input_prefix settings request_id)
              w
              a
              middle
        outputs :
            IsEmptied B V store settings settings.s3_output_bucket
              (output_prefix settings request_id)
              middle
              a
              v

      delete_both-Ensures :
          (request_id : Text) (w : W)
          → Ensures (AreEmptied request_id w) (delete_both B settings request_id w)
      unfolding delete_both
      delete_both-Ensures request_id w =
          let Q = AreEmptied request_id w in
          let inputs = input_prefix settings request_id in
          let outputs = output_prefix settings request_id in
          Ensures-then_run Q (delete_under B settings settings.s3_input_bucket inputs w) _ λ _ v e.
            Ensures-last Q (delete_under B settings settings.s3_output_bucket outputs v) λ _ u e'.
              let first =
                Ensures-ok (IsEmptied B V store settings settings.s3_input_bucket inputs w) e (
                  delete_under-Ensures B V store settings redis settings.s3_input_bucket inputs
                    w) in
              let second =
                Ensures-ok (IsEmptied B V store settings settings.s3_output_bucket outputs v) e' (
                  delete_under-Ensures B V store settings redis settings.s3_output_bucket outputs
                    v) in
              record {
                kept = λ j. second.kept j ∙ first.kept j;
                middle = v;
                inputs = first;
                outputs = second;
              }

      cleaned_at :
          (held0 held1 held2 held3 under_in under_out error_in error_out : Bool)
          → held1 ≡ (held0 && not (under_in && not error_in))
          → held2 ≡ (held1 && not (under_out && not error_out))
          → held3 ≡ held2
          → held3 ≡ (held0 && not ((under_in && not error_in) || (under_out && not error_out)))
      cleaned_at held0 held1 held2 held3 under_in under_out error_in error_out e f g = ground arith

      -- After the client is closed.
      record IsClosed (c : Cleanup) (w : W) (a : Unit {0}) (v : W) : Type 0 where
        opened : W
        last : W
        deleted : AreEmptied c.task_record.request_id opened a last
        stored_before : (j : Text) → V.stored opened j ≡ V.stored w j
        held_before : (b key : Text) → V.held opened b key ≡ V.held w b key
        stored_after : (j : Text) → V.stored v j ≡ V.stored last j
        held_after : (b key : Text) → V.held v b key ≡ V.held last b key

      closed :
          (c : Cleanup) (w : W)
          → Ensures
              (IsClosed c w)
              (with_s3_client B settings (delete_both B settings c.task_record.request_id) w)
      closed c w =
          let request_id = c.task_record.request_id in
          let body = delete_both B settings request_id in
          let options = s3_client settings in
          Ensures-with_s3_client B settings body w (IsClosed c w) λ v e.
            Ensures-mono (AreEmptied request_id v) _ (body v) (delete_both-Ensures request_id v)
              λ a u emptied x e'. record {
                opened = v;
                last = u;
                deleted = emptied;
                stored_before = λ j.
                    sym (ap (λ p. V.stored p.1 j) e) ∙ (redis.open_s3-SameStored options w).at j;
                held_before = λ b key.
                    sym (ap (λ p. V.held p.1 b key) e)
                    ∙ (store.open_s3-SameHeld options w).at b key;
                stored_after =
                    λ j. sym (ap (λ p. V.stored p.1 j) e') ∙ (redis.close_s3-SameStored u).at j;
                held_after = λ b key.
                    sym (ap (λ p. V.held p.1 b key) e') ∙ (store.close_s3-SameHeld u).at b key;
              }

      cleaned :
          (c : Cleanup) (w u x : W)
          → IsClosed c w tt u
          → B.redis_delete (record_key c.task_id) u ≡ (ok tt, x)
          → IsCleaned c w x
      cleaned c w u x h e =
          let first = h.deleted.inputs in
          let second = h.deleted.outputs in
          let inputs = input_prefix settings c.task_record.request_id in
          let outputs = output_prefix settings c.task_record.request_id in
          let left : Text → Text → Bool = λ b key.
            V.held w b key
            && not (
                is_under settings.s3_input_bucket inputs b key
                && not (contains key first.errors)) in
          let half : (b key : Text) → V.held h.deleted.middle b key ≡ left b key = λ b key.
            first.emptied b key
            ∙ ap
                (λ held.
                  held
                  && not (
                      is_under settings.s3_input_bucket inputs b key
                      && not (contains key first.errors)))
                (h.held_before b key) in
          record {
            input_errors = first.errors;
            output_errors = second.errors;
            inputs_reported =
                Reported-same B V store settings settings.s3_input_bucket inputs (V.held h.opened)
                  (V.held w) first.errors (λ b key. sym (h.held_before b key)) first.reported;
            outputs_reported =
                Reported-same B V store settings settings.s3_output_bucket outputs
                  (V.held h.deleted.middle) left second.errors (λ b key. sym (half b key))
                  second.reported;
            emptied = λ b key.
                cleaned_at (V.held w b key) (V.held h.deleted.middle b key) (V.held h.last b key) _
                  _ _ _ _ (half b key) (second.emptied b key)
                  (sym (ap (λ p. V.held p.1 b key) e)
                    ∙ (store.redis_delete-SameHeld (record_key c.task_id) u).at b key
                    ∙ h.held_after b key);
            forgotten = λ j.
                redis.delete (record_key c.task_id) u x e j
                ∙ ap (λ o. if str_eq (record_key c.task_id) j then none else o)
                    (h.stored_after j ∙ h.deleted.kept j ∙ h.stored_before j);
          }

      cleanup_steps-Ensures :
          (c : Cleanup) (w : W) → Ensures (λ _ v. IsCleaned c w v) (cleanup_steps B settings c w)
      unfolding cleanup_steps
      cleanup_steps-Ensures c w =
          let Q : Unit {0} → W → Type 0 = λ _ v. IsCleaned c w v in
          let request_id = c.task_record.request_id in
          let body = delete_both B settings request_id in
          Ensures-then_run Q (with_s3_client B settings body w) _ λ _ u e.
            Ensures-last Q (B.redis_delete (record_key c.task_id) u)
              λ _ x e'. cleaned c w u x (Ensures-ok (IsClosed c w) e (closed c w)) e'

      -- A clean-up that gets to its end deletes the objects under the two prefixes of its request,
      -- but those for which the object store's responses report errors, and no others, and exactly
      -- the task's value in Redis, whatever errors were reported; its requests to delete name just
      -- the objects that are then held under the prefix.
      pub cleanup_task_storage-IsCleaned :
          (c : Cleanup) (w : W)
          → (cleanup_steps B settings c w).0 ≡ ok tt
          → IsCleaned c w (cleanup_task_storage B settings c w)
      unfolding cleanup_task_storage
      cleanup_task_storage-IsCleaned c w h =
          Ensures-returned (λ _ v. IsCleaned c w v) (cleanup_steps B settings c w) h
            (cleanup_steps-Ensures c w)
