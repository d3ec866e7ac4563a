-- ===== src/Admin/Http/Laws.antt =====
-- What is sent, what is read of a response, and the id of a created resource.
use key_cloak_sdk.Common.{
  ◌≡◌, ◌≢◌, ◌≤◌, leb, length, refl, ap, false, ◌||◌, Option, some, List, [], ◌∷◌, ◌++◌, Str, arith,
  ◌⊎◌, inl, inr, Bool-cases, ◌==◌, Option-cases,
}
use key_cloak_sdk.Values.Json.{Value, string}
use key_cloak_sdk.Outcome.{Outcome, ok, raise}
use key_cloak_sdk.Capped.{Stream, read_capped, token_response_max_bytes}
use key_cloak_sdk.Capped.Laws.{read_capped_lem}
use key_cloak_sdk.Admin.Platform.{Platform, Response, Session, Use, cancelled, capped}
use key_cloak_sdk.Admin.Http.{
  declares_too_much, parse_capped, acknowledge, receive, receive_one, error_body, reject, is_ok,
  last_segment, has_slash, created_id, network_error, parse, read_noted,
}

-- The uses of a body that stay within the cap.
abbrev pub IsBounded : List Use → List Use → Type 0
IsBounded before after =
    (after ≡ before) ⊎ ((after ≡ cancelled ∷ before) ⊎ (after ≡ capped ∷ before))

module _ {W : Type 0} (p : Platform W) where
  pub error_body-IsBounded :
      (res : Response) (s : Session W)
      → (v : Value) × (t : Session W) × (error_body p res s ≡ (ok v, t)) × IsBounded s.uses t.uses
  unfolding error_body read_noted
  error_body-IsBounded res s = elim (Option-cases res.body) [
    | inl e ↦ (string [], s, rw (e, error_body) refl, inl refl)
    | inr (body, e) ↦ elim (Bool-cases (declares_too_much p res.content_length)) [
      | inl much ↦ (
        string [],
        record s { uses = cancelled ∷ s.uses },
        rw (e, much, error_body) refl,
        inr (inl refl),
      )
      | inr little ↦ (
        parse_capped p (read_capped body token_response_max_bytes),
        record s { uses = capped ∷ s.uses },
        rw (e, little, error_body) refl,
        inr (inr refl),
      )
    ]
  ]

  reject-IsBounded :
      (A : Type 0) (res : Response) (s : Session W)
      → IsBounded s.uses (reject p {A = A} res s).1.uses
  unfolding reject
  reject-IsBounded A res s =
      let (v, t, e, bounded) = error_body-IsBounded res s in rw (e, reject) bounded

  -- The failure of a response that is no success carries its status.
  pub reject_lem :
      (A : Type 0) (res : Response) (t : Session W)
      → (content : Value) × ((reject p {A = A} res t).0 ≡ raise (network_error res.status content))
  unfolding reject
  reject_lem A res t =
      let (v, u, e, bounded) = error_body-IsBounded res t in (v, rw (e, reject) refl)

  receive_one-IsBounded :
      (res : Response) (s : Session W)
      → is_ok res.status ≡ false
      → IsBounded s.uses (receive_one p res s).1.uses
  unfolding receive_one receive
  receive_one-IsBounded res s h = elim (Bool-cases (res.status == 404)) [
    | inl missing ↦
        let (v, t, e, bounded) = error_body-IsBounded res s in rw (missing, e, receive_one) bounded
    | inr other ↦ rw (other, h, receive_one, receive) (reject-IsBounded Value res s)
  ]

  -- The body that an error carries: empty, or the whole of a body within the cap.
  abbrev pub IsContent : Response → Value → Type 0
  IsContent res content =
      (content ≡ string [])
      ⊎ ((body : Stream) × (res.body ≡ some body)
          × (length body.bytes ≤ token_response_max_bytes)
          × (content ≡ parse p (p.decode_utf8 body.bytes)))

  error_body-IsContent :
      (res : Response) (s : Session W)
      → (v : Value) × (t : Session W) × (error_body p res s ≡ (ok v, t)) × IsContent res v
  unfolding error_body read_noted parse_capped
  error_body-IsContent res s = elim (Option-cases res.body) [
    | inl e ↦ (string [], s, rw (e, error_body) refl, inl refl)
    | inr (body, e) ↦ elim (Bool-cases (declares_too_much p res.content_length)) [
      | inl much ↦ (
        string [],
        record s { uses = cancelled ∷ s.uses },
        rw (e, much, error_body) refl,
        inl refl,
      )
      | inr little ↦ elim (read_capped_lem body token_response_max_bytes) [
        | inr (x, m, failed) ↦ (
          string [],
          record s { uses = capped ∷ s.uses },
          rw (e, little, error_body) (rw (read_noted, failed, parse_capped) refl),
          inl refl,
        )
        | inl q ↦ elim (Bool-cases (leb (length body.bytes) token_response_max_bytes)) [
          | inl small ↦ (
            parse p (p.decode_utf8 body.bytes),
            record s { uses = capped ∷ s.uses },
            rw (e, little, error_body) (rw (read_noted, q, small, parse_capped) refl),
            inr (body, e, ground arith, refl),
          )
          | inr large ↦ (
            string [],
            record s { uses = capped ∷ s.uses },
            rw (e, little, error_body) (rw (read_noted, q, large, parse_capped) refl),
            inl refl,
          )
        ]
      ]
    ]
  ]

  refused :
      (res : Response) (s : Session W)
      → is_ok res.status ≡ false
      → (content : Value) × IsContent res content
        × ((receive p res s).0 ≡ raise (network_error res.status content))
        × ((acknowledge p res s).0 ≡ raise (network_error res.status content))
  unfolding receive acknowledge reject
  refused res s h =
      let (v, t, e, content) = error_body-IsContent res s in
      (v, content, rw (h, receive) (rw (reject, e) refl), rw (h, acknowledge) (rw (reject, e) refl))

  -- The platform with another `res.text()`.
  abbrev pub with_text : (Option Stream → Outcome Str) → Platform W
  with_text f = record p { text = f }

  same_without_text :
      (f : Option Stream → Outcome Str) (res : Response) (s : Session W)
      → is_ok res.status ≡ false
      → (receive_one (with_text f) res s ≡ receive_one p res s)
        × (receive (with_text f) res s ≡ receive p res s)
        × (acknowledge (with_text f) res s ≡ acknowledge p res s)
  unfolding receive_one receive acknowledge reject error_body parse parse_capped declares_too_much
  same_without_text f res s h = (
    elim (Bool-cases (res.status == 404)) [
      | inl missing ↦ rw (missing, receive_one) refl
      | inr other ↦ rw (other, h, receive_one, receive) refl
    ],
    rw (h, receive) refl,
    rw (h, acknowledge) refl,
  )

  -- The body of a response whose status is no success is never read whole, however the response is
  -- received. Nothing that comes of it depends on what `res.text()` would give. The error carries the
  -- status, and for content the empty text or a body of at most a mebibyte, read through the cap. And
  -- the body, that of a 404 included, is left alone, cancelled, or read up to the cap, once.
  pub receive-IsBounded :
      (f : Option Stream → Outcome Str) (res : Response) (s : Session W)
      → is_ok res.status ≡ false
      → ((receive_one (with_text f) res s ≡ receive_one p res s)
          × (receive (with_text f) res s ≡ receive p res s)
          × (acknowledge (with_text f) res s ≡ acknowledge p res s))
        × ((content : Value) × IsContent res content
            × ((receive p res s).0 ≡ raise (network_error res.status content))
            × ((acknowledge p res s).0 ≡ raise (network_error res.status content)))
        × IsBounded s.uses (receive_one p res s).1.uses
        × IsBounded s.uses (receive p res s).1.uses
        × IsBounded s.uses (acknowledge p res s).1.uses
  unfolding receive_one receive acknowledge
  receive-IsBounded f res s h = (
    same_without_text f res s h,
    refused res s h,
    receive_one-IsBounded res s h,
    rw (h, receive) (reject-IsBounded Value res s),
    rw (h, acknowledge) (reject-IsBounded Unit res s),
  )

last_segment_lem :
    (s : Str)
    → (has_slash (last_segment s) ≡ false) × ((front : Str) × (s ≡ front ++ last_segment s))
unfolding last_segment
last_segment_lem [] = (refl, ([], refl))
last_segment_lem (c ∷ s) = elim (Bool-cases (c == 47 || has_slash s)) [
  | inl e ↦
      let (plain, (front, parts)) = last_segment_lem s in
      (rw (e, last_segment) plain, (c ∷ front, rw (e, last_segment) (ap (λ t. c ∷ t) parts)))
  | inr e ↦ (rw (e, last_segment) e, ([], rw (e, last_segment) refl))
]

-- Where a create call returns an id, it is not empty, has no slash in it, and stands at the end of
-- the `Location` of the response.
pub created_id_lem :
    (res : Response) (id : Str)
    → created_id res ≡ ok id
    → (id ≢ [])
      × (has_slash id ≡ false)
      × ((location : Str) × (front : Str) × (res.location ≡ some location)
          × (location ≡ front ++ id))
unfolding created_id
created_id_lem res id h = elim (Option-cases res.location) [
  | inl e ↦ absurd (ground arith)
  | inr (location, e) ↦
      let (plain, (front, parts)) = last_segment_lem location in
      let same : last_segment location ≡ id = ground arith in
      (λ q. ground arith, rw (← same) plain, (location, front, e, rw (← same) parts))
]
