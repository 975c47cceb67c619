-- ===== src/Facade/Resolve/Isolation.antt =====
-- The objects of different requests do not meet.
use docling_serve_ray.Prelude.{
  ◌≡◌, ◌≢◌, ap, sym, ◌∙◌, true, false, [], ◌∷◌, ◌++◌, arith, append_assoc, Bool-cases, inl, inr,
  length, drop,
}
use docling_serve_ray.Text.{Text, codes, str_eq, starts_with, has_char}
use docling_serve_ray.Text.Laws.{str_eq_iff, starts_with_split}
use docling_serve_ray.Text.Parts.{first_segment_unique}
use docling_serve_ray.Facade.Schemas.{Settings}
use docling_serve_ray.Facade.Backend.{Backend}
use docling_serve_ray.Facade.Stores.{View, IsObjectStore}
use docling_serve_ray.Facade.Submit.{input_prefix, output_prefix}
use docling_serve_ray.Facade.Resolve.{Cleanup, cleanup_task_storage}
use docling_serve_ray.Facade.Resolve.Deleting.{is_under}
use docling_serve_ray.Facade.Resolve.Cleaning.{is_of_request, cleanup_task_storage-others}

append_cancel : (p : Text) {x y : Text} → p ++ x ≡ p ++ y → x ≡ y
append_cancel [] e = e
append_cancel (c ∷ p) {x} {y} e = append_cancel p (let t : p ++ x ≡ p ++ y = ground arith in t)

-- The rest of a key behind a request's prefix.
request_split :
    (base r key : Text)
    → starts_with key (base ++ (r ++ codes "/")) ≡ true
    → base ++ (r ++ b'/' ∷ drop (length (base ++ (r ++ codes "/"))) key) ≡ key
request_split base r key h =
    let rest = drop (length (base ++ (r ++ codes "/"))) key in
    ap (λ t. base ++ t) (sym (append_assoc r (codes "/") rest))
    ∙ sym (append_assoc base (r ++ codes "/") rest)
    ∙ starts_with_split key (base ++ (r ++ codes "/")) h

same_request :
    (base r s key : Text)
    → has_char b'/' r ≡ false
    → has_char b'/' s ≡ false
    → starts_with key (base ++ (r ++ codes "/")) ≡ true
    → starts_with key (base ++ (s ++ codes "/")) ≡ true
    → r ≡ s
same_request base r s key h k e f =
    first_segment_unique b'/' r s _ _ h k
      (append_cancel base (request_split base r key e ∙ sym (request_split base s key f)))

not_both :
    (base r s key : Text)
    → has_char b'/' r ≡ false
    → has_char b'/' s ≡ false
    → r ≢ s
    → starts_with key (base ++ (s ++ codes "/")) ≡ true
    → starts_with key (base ++ (r ++ codes "/")) ≡ false
not_both base r s key h k ne e = elim (Bool-cases (starts_with key (base ++ (r ++ codes "/")))) [
  | inr differs ↦ differs
  | inl both ↦ absurd (ne (same_request base r s key h k both e))
]

-- No object belongs to two requests, if the two buckets differ and the requests' ids hold no "/".
is_of_request_exclusive :
    (settings : Settings) (r s b key : Text)
    → str_eq settings.s3_input_bucket settings.s3_output_bucket ≡ false
    → has_char b'/' r ≡ false
    → has_char b'/' s ≡ false
    → r ≢ s
    → is_of_request settings s b key ≡ true
    → is_of_request settings r b key ≡ false
unfolding is_of_request is_under input_prefix output_prefix
is_of_request_exclusive settings r s b key buckets h k ne e = ground (
  arith,
  not_both settings.s3_input_prefix r s key h k ne,
  not_both settings.s3_output_prefix r s key h k ne,
  str_eq_iff settings.s3_input_bucket b,
  str_eq_iff settings.s3_output_bucket b,
  str_eq_iff settings.s3_input_bucket settings.s3_output_bucket,
)

-- A clean-up leaves every object of every other request as it is, whether or not it gets to its
-- end, if the input and output buckets differ and the requests' ids hold no "/".
pub cleanup_task_storage_isolated :
    {W : Type 0} (B : Backend W) (V : View W) (store : IsObjectStore B V) (settings : Settings)
    (c : Cleanup) (other b key : Text) (w : W)
    → str_eq settings.s3_input_bucket settings.s3_output_bucket ≡ false
    → has_char b'/' c.task_record.request_id ≡ false
    → has_char b'/' other ≡ false
    → c.task_record.request_id ≢ other
    → is_of_request settings other b key ≡ true
    → V.held (cleanup_task_storage B settings c w) b key ≡ V.held w b key
cleanup_task_storage_isolated B V store settings c other b key w buckets h k ne e =
    cleanup_task_storage-others B V store settings c b key w
      (is_of_request_exclusive settings c.task_record.request_id other b key buckets h k ne e)
