-- ===== src/Facade/Resolve/Deleting.antt =====
-- The deletion of the objects under one prefix, as `_cleanup_task_storage` does it for each of two,
-- with the errors that the object store reports for single keys.
use docling_serve_ray.Prelude.{
  ◌≡◌, refl, ap, sym, ◌∙◌, Bool, false, ◌&&◌, not, Option, List, [], ◌∷◌, arith,
}
use docling_serve_ray.Result.{Result, ok, err}
use docling_serve_ray.Text.{Text, str_eq, starts_with}
use docling_serve_ray.Text.Laws.{str_eq_iff}
use docling_serve_ray.Dict.{contains}
use docling_serve_ray.Facade.Schemas.{Settings}
use docling_serve_ray.Facade.Artifacts.{list_artifacts}
use docling_serve_ray.Facade.Backend.{Action, Backend, Raised, then_run}
use docling_serve_ray.Facade.Backend.Laws.{
  Ensures, Ensures-ok, Ensures-return, Ensures-then_run, Ensures-last,
}
use docling_serve_ray.Facade.Stores.{View, IsRedis, IsObjectStore}
use docling_serve_ray.Facade.Resolve.{delete_objects_of, delete_under}

-- What holds of the services after a step, whether it returned or raised.
pub then_run-state :
    {W A B : Type 0} (P : W → Type 0) (p : Result Raised A × W) (next : A → Action W B)
    → P p.1
    → ((a : A) (w : W) → p ≡ (ok a, w) → P w → P (next a w).1)
    → P (then_run p next).1
then_run-state P (ok a, w) next h k = k a w refl h
then_run-state P (err e, w) next h k = h

-- Whether an object is one under a prefix of a bucket.
unfoldable pub is_under : Text → Text → Text → Text → Bool
is_under bucket prefix b key = str_eq bucket b && starts_with key prefix

module _ {W : Type 0} (B : Backend W) (V : View W) (store : IsObjectStore B V) where
  unlisted :
      (bucket prefix : Text) (w v : W) (pages : List (Option (List Text))) (b key : Text)
      → B.paginate bucket prefix w ≡ (ok pages, v)
      → is_under bucket prefix b key ≡ false
      → (str_eq bucket b && contains key (list_artifacts pages)) ≡ false
  unfolding is_under
  unlisted bucket prefix w v pages b key e h =
      ground (arith, store.listed bucket prefix w v pages e key)

  module _ (settings : Settings) where
    delete_objects_of-others :
        (bucket : Text) (keys : List Text) (b key : Text) (w : W)
        → (str_eq bucket b && contains key keys) ≡ false
        → V.held (delete_objects_of B settings bucket keys w).1 b key ≡ V.held w b key
    unfolding delete_objects_of
    delete_objects_of-others bucket [] b key w h = refl
    delete_objects_of-others bucket (k ∷ keys) b key w h =
        then_run-state (λ v. V.held v b key ≡ V.held w b key) (B.delete_objects bucket (k ∷ keys) w)
          _ (store.delete_only_named bucket (k ∷ keys) w b key h) λ errors v e same. same

    pub delete_under-others :
        (bucket prefix b key : Text) (w : W)
        → is_under bucket prefix b key ≡ false
        → V.held (delete_under B settings bucket prefix w).1 b key ≡ V.held w b key
    unfolding delete_under
    delete_under-others bucket prefix b key w h =
        then_run-state (λ v. V.held v b key ≡ V.held w b key) (B.paginate bucket prefix w) _
          ((store.paginate-SameHeld bucket prefix w).at b key)
          λ pages v e same.
            delete_objects_of-others bucket (list_artifacts pages) b key v
              (unlisted bucket prefix w v pages b key e h)
            ∙ same

    -- The errors that the store's response to a deletion reported, where it held the objects of
    -- `before`: the deletion named just those of them under the prefix, or there were none and
    -- nothing was to be deleted.
    pub data Reported (bucket prefix : Text) (before : Text → Text → Bool)
        : List Text → Type 0 where
      nothing_held :
          ((key : Text) → (before bucket key && starts_with key prefix) ≡ false)
          → Reported bucket prefix before []
      responded :
          (keys errors : List Text) (w v : W)
          → ((b key : Text) → V.held w b key ≡ before b key)
          → ((key : Text) → contains key keys ≡ (before bucket key && starts_with key prefix))
          → B.delete_objects bucket keys w ≡ (ok errors, v)
          → Reported bucket prefix before errors

    pub Reported-same :
        (bucket prefix : Text) (f g : Text → Text → Bool) (errors : List Text)
        → ((b key : Text) → g b key ≡ f b key)
        → Reported bucket prefix f errors
        → Reported bucket prefix g errors
    Reported-same bucket prefix f g _ same (nothing_held none_held) =
        nothing_held
          λ key. ap (λ held. held && starts_with key prefix) (same bucket key) ∙ none_held key
    Reported-same bucket prefix f g _ same (responded keys errors w v held named sent) =
        responded keys errors w v (λ b key. held b key ∙ sym (same b key))
          (λ key. named key ∙ ap (λ held. held && starts_with key prefix) (sym (same bucket key)))
          sent

    -- The objects of `w` but those under the prefix for which no error was reported, and Redis as it
    -- was.
    pub record IsEmptied (bucket prefix : Text) (w : W) (a : Unit {0}) (v : W) : Type 0 where
      pub kept : (j : Text) → V.stored v j ≡ V.stored w j
      pub errors : List Text
      pub reported : Reported bucket prefix (V.held w) errors
      pub emptied :
          (b key : Text)
          → V.held v b key
            ≡ (V.held w b key && not (is_under bucket prefix b key && not (contains key errors)))

    -- A listing, seen from where the deletion begins.
    listed_before :
        (bucket prefix : Text) (w u : W) (pages : List (Option (List Text))) (key : Text)
        → B.paginate bucket prefix w ≡ (ok pages, u)
        → contains key (list_artifacts pages) ≡ (V.held u bucket key && starts_with key prefix)
    listed_before bucket prefix w u pages key e =
        store.listed bucket prefix w u pages e key
        ∙ ap (λ held. held && starts_with key prefix)
            (sym ((store.paginate-SameHeld bucket prefix w).at bucket key)
              ∙ ap (λ p. V.held p.1 bucket key) e)

    -- What a deletion does with the listed keys.
    record IsDeleted (bucket prefix : Text) (w v : W) : Type 0 where
      errors : List Text
      reported : Reported bucket prefix (V.held w) errors
      gone :
          (b key : Text)
          → V.held v b key
            ≡ (V.held w b key && not (is_under bucket prefix b key && not (contains key errors)))

    gone_at :
        (bucket prefix : Text) (named reported : Bool) (w : W) (b key : Text)
        → named ≡ (V.held w bucket key && starts_with key prefix)
        → (V.held w b key && not (str_eq bucket b && (named && not reported)))
          ≡ (V.held w b key && not (is_under bucket prefix b key && not reported))
    unfolding is_under
    gone_at bucket prefix named reported w b key e = ground (arith, str_eq_iff bucket b)

    delete_objects_of-IsDeleted :
        (bucket prefix : Text) (keys : List Text) (w v : W)
        → ((key : Text) → contains key keys ≡ (V.held w bucket key && starts_with key prefix))
        → delete_objects_of B settings bucket keys w ≡ (ok tt, v)
        → IsDeleted bucket prefix w v
    unfolding delete_objects_of contains is_under
    delete_objects_of-IsDeleted bucket prefix [] w v named e = record {
      errors = [];
      reported = nothing_held (λ key. sym (named key));
      gone = λ b key.
          sym (ap (λ p. V.held p.1 b key) e) ∙ ground (arith, named key, str_eq_iff bucket b);
    }
    delete_objects_of-IsDeleted bucket prefix (k ∷ keys) w v named e =
        Ensures-ok (λ _ x. IsDeleted bucket prefix w x) e
          (Ensures-then_run (λ _ x. IsDeleted bucket prefix w x)
            (B.delete_objects bucket (k ∷ keys) w) _
            λ errors u sent.
              Ensures-return (λ _ x. IsDeleted bucket prefix w x) tt u
                (record {
                  errors = errors;
                  reported = responded (k ∷ keys) errors w u (λ b key. refl) named sent;
                  gone = λ b key.
                      store.deleted bucket (k ∷ keys) errors w u sent b key
                      ∙ gone_at bucket prefix (contains key (k ∷ keys)) (contains key errors) w b
                          key (named key);
                }))

    module _ (redis : IsRedis B V) where
      delete_objects_of-stored :
          (bucket : Text) (keys : List Text) (w v : W)
          → delete_objects_of B settings bucket keys w ≡ (ok tt, v)
          → (j : Text) → V.stored v j ≡ V.stored w j
      unfolding delete_objects_of
      delete_objects_of-stored bucket [] w v e j = sym (ap (λ p. V.stored p.1 j) e)
      delete_objects_of-stored bucket (k ∷ keys) w v e j =
          sym (ap (λ p. V.stored p.1 j) e)
          ∙ then_run-state (λ x. V.stored x j ≡ V.stored w j) (B.delete_objects bucket (k ∷ keys) w)
              (λ errors x. (ok tt, x)) ((redis.delete_objects-SameStored bucket (k ∷ keys) w).at j)
              λ errors x _ same. same

      pub delete_under-Ensures :
          (bucket prefix : Text) (w : W)
          → Ensures (IsEmptied bucket prefix w) (delete_under B settings bucket prefix w)
      unfolding delete_under
      delete_under-Ensures bucket prefix w =
          let Q = IsEmptied bucket prefix w in
          Ensures-then_run Q (B.paginate bucket prefix w) _ λ pages u e.
            let keys = list_artifacts pages in
            Ensures-last Q (delete_objects_of B settings bucket keys u) λ _ v e'.
              let same : (b key : Text) → V.held u b key ≡ V.held w b key = λ b key.
                sym (ap (λ p. V.held p.1 b key) e)
                ∙ (store.paginate-SameHeld bucket prefix w).at b key in
              let deleted =
                delete_objects_of-IsDeleted bucket prefix keys u v
                  (λ key. listed_before bucket prefix w u pages key e) e' in
              record {
                kept = λ j.
                    delete_objects_of-stored bucket keys u v e' j
                    ∙ sym (ap (λ p. V.stored p.1 j) e)
                    ∙ (redis.paginate-SameStored bucket prefix w).at j;
                errors = deleted.errors;
                reported =
                    Reported-same bucket prefix (V.held u) (V.held w) deleted.errors
                      (λ b key. sym (same b key)) deleted.reported;
                emptied = λ b key.
                    deleted.gone b key
                    ∙ ap
                        (λ held.
                          held
                          && not
                              (is_under bucket prefix b key && not (contains key deleted.errors)))
                        (same b key);
              }
