-- ===== src/Facade/Sample/Codec.antt =====
-- A text for each record, and the record back: lists go behind their lengths.
use docling_serve_ray.Prelude.{
  ℕ, zero, suc, ◌≡◌, refl, ap, ◌∙◌, Bool, true, false, Option, none, some, List, [], ◌∷◌, ◌++◌,
  length, take, drop, take-append_self, drop-append_self, append_assoc,
}
use docling_serve_ray.Text.{Text}
use docling_serve_ray.Facade.Schemas.{TaskRecord, RecordKind, file_upload}

abbrev put_text : Text → Text
put_text s = length s ∷ s

abbrev put_texts : List Text → Text
put_texts [] = []
put_texts (s ∷ ss) = put_text s ++ put_texts ss

abbrev put_list : List Text → Text
put_list ss = length ss ∷ put_texts ss

abbrev put_option : Option Text → Text
put_option none = 0 ∷ []
put_option (some s) = 1 ∷ put_text s

abbrev put_bool : Bool → Text
put_bool true = 1 ∷ []
put_bool false = 0 ∷ []

abbrev pub dump : TaskRecord → Text
dump r =
    put_text r.request_id
    ++ (put_option r.tenant_id
        ++ (put_list r.filenames ++ (put_list r.to_formats ++ put_bool r.as_zip)))

abbrev get_text : Text → Text × Text
get_text [] = ([], [])
get_text (n ∷ s) = (take n s, drop n s)

abbrev get_texts : ℕ → Text → List Text × Text
get_texts zero s = ([], s)
get_texts (suc n) s =
    let (t, rest) = get_text s in let (ts, last) = get_texts n rest in (t ∷ ts, last)

abbrev get_list : Text → List Text × Text
get_list [] = ([], [])
get_list (n ∷ s) = get_texts n s

abbrev get_option : Text → Option Text × Text
get_option [] = (none, [])
get_option (zero ∷ s) = (none, s)
get_option (suc n ∷ s) = let (t, rest) = get_text s in (some t, rest)

abbrev get_bool : Text → Bool
get_bool [] = false
get_bool (zero ∷ s) = false
get_bool (suc n ∷ s) = true

abbrev pub validate : Text → Option TaskRecord
validate s =
    let (request_id, s1) = get_text s in
    let (tenant_id, s2) = get_option s1 in
    let (filenames, s3) = get_list s2 in
    let (to_formats, s4) = get_list s3 in
    some (record {
      kind = file_upload;
      request_id = request_id;
      tenant_id = tenant_id;
      filenames = filenames;
      to_formats = to_formats;
      as_zip = get_bool s4;
    })

get-put_text : (s rest : Text) → get_text (put_text s ++ rest) ≡ (s, rest)
get-put_text s rest = λ i. (take-append_self s rest i, drop-append_self s rest i)

get-put_texts :
    (ss : List Text) (rest : Text) → get_texts (length ss) (put_texts ss ++ rest) ≡ (ss, rest)
get-put_texts [] rest = refl
get-put_texts (s ∷ ss) rest = rw (
  append_assoc s (put_texts ss) rest,
  take-append_self s (put_texts ss ++ rest),
  drop-append_self s (put_texts ss ++ rest),
  get-put_texts ss rest,
)

get-put_option : (o : Option Text) (rest : Text) → get_option (put_option o ++ rest) ≡ (o, rest)
get-put_option none rest = refl
get-put_option (some s) rest = rw (take-append_self s rest, drop-append_self s rest)

get-put_bool : (b : Bool) → get_bool (put_bool b) ≡ b
get-put_bool true = refl
get-put_bool false = refl

kind_unique : (k : RecordKind) → file_upload ≡ k
kind_unique file_upload = refl

validate-dump_fields :
    (id : Text) (o : Option Text) (fs ts : List Text) (b : Bool)
    → validate (
        length id
        ∷ (id
            ++ (put_option o
                ++ length fs ∷ (put_texts fs ++ length ts ∷ (put_texts ts ++ put_bool b)))))
      ≡ some (record {
        kind = file_upload;
        request_id = id;
        tenant_id = o;
        filenames = fs;
        to_formats = ts;
        as_zip = b;
      })
validate-dump_fields id o fs ts b =
    let s4 = put_bool b in
    let s3 : Text = length ts ∷ (put_texts ts ++ s4) in
    let s2 : Text = length fs ∷ (put_texts fs ++ s3) in
    let s1 : Text = put_option o ++ s2 in
    rw (
      take-append_self id s1,
      drop-append_self id s1,
      get-put_option o s2,
      get-put_texts fs s3,
      get-put_texts ts s4,
      get-put_bool b,
    )

pub validate-dump : (r : TaskRecord) → validate (dump r) ≡ some r
validate-dump r =
    validate-dump_fields r.request_id r.tenant_id r.filenames r.to_formats r.as_zip
    ∙ ap (λ k. some (record r { kind = k })) (kind_unique r.kind)
