-- ===== src/Client/Finds.antt =====
-- The client of cmd/client/client.go with servers that answer as server/handler.go does.
use wjetcd.Common.{
  ◌≡◌, refl, ap, ◌∙◌, true, false, ◌==◌, Option, none, some, List, [], ◌∷◌, ◌++◌, All, ByteString,
  bytes, bytes_eq, has_prefix, bytes_key,
}
use wjetcd.Command.{Command}
use wjetcd.Server.Submit.{Node, get}
use wjetcd.Server.Handler.{Request, submits, is_get, query_get, value}
use wjetcd.Server.Handler.Texts.{Response, put_response, get_response}
use wjetcd.Client.{
  index_of, contains, put_url, get_url, http_put, http_get, filled, value_in, put_answered,
  get_answered, Written, written_at,
}
use wjetcd.Client.Search.{IsUnquoted, field_of-value}

-- What a client passes over when it writes: no response, or a server that does not lead.
pub data Passes : Option Response → Type 0 where
  no_answer : Passes none
  told_not_leader :
      (answer : Command → Option ByteString) (cmd : Command)
      → answer cmd ≡ some (bytes "not leader")
      → Passes (some (put_response answer (submits cmd)))

-- When it reads: no response, or one with another status.
pub data IsSilent : Option Response → Type 0 where
  no_reading : IsSilent none
  other_status : (r : Response) → (r.status == 200) ≡ false → IsSilent (some r)

passed :
    (addr : ByteString) (o : Option Response) (next : Written)
    → Passes o
    → put_answered addr o next ≡ next
unfolding put_answered put_response contains index_of has_prefix
passed addr none next p = refl
passed addr (some _) next (told_not_leader answer cmd e) = rw (put_answered, put_response, e) refl

taken :
    (addr : ByteString) (answer : Command → Option ByteString) (cmd : Command) (next : Written)
    → answer cmd ≡ none
    → put_answered addr (some (put_response answer (submits cmd))) next ≡ written_at addr
unfolding put_answered put_response
taken addr answer cmd next e = rw (put_answered, put_response, e) refl

module _ (post : ByteString → Option Response) (key val : ByteString) where
  -- A write goes to the first server of the list that takes it, where those before it do not
  -- answer, or answer that they do not lead.
  pub http_put-finds :
      (before after : List ByteString) (addr : ByteString)
      → All (λ a. Passes (post (put_url a key val))) before
      → (answer : Command → Option ByteString) (cmd : Command) → answer cmd ≡ none
      → post (put_url addr key val) ≡ some (put_response answer (submits cmd))
      → http_put post (before ++ addr ∷ after) key val ≡ written_at addr
  unfolding http_put
  http_put-finds [] after addr p answer cmd took e =
      ap (λ o. put_answered addr o (http_put post after key val)) e
      ∙ taken addr answer cmd (http_put post after key val) took
  http_put-finds (a ∷ before) after addr p answer cmd took e =
      passed a (post (put_url a key val)) (http_put post (before ++ addr ∷ after) key val) p.0
      ∙ http_put-finds before after addr p.1 answer cmd took e

passed_silent :
    (o : Option Response) (next : Option ByteString) → IsSilent o → get_answered o next ≡ next
unfolding get_answered value_in
passed_silent none next p = refl
passed_silent (some _) next (other_status r other) = rw (get_answered, value_in, other) refl

read_value :
    (v : ByteString) (next : Option ByteString)
    → IsUnquoted v
    → bytes_eq v [] ≡ false
    → get_answered (get_response (value v)) next ≡ some v
unfolding get_answered get_response value_in filled bytes_eq
read_value [] next unquoted there = cc
read_value (b ∷ v) next unquoted there =
    ap (λ o. elim (filled o) as (λ x. Option ByteString) [ none ↦ next | some w ↦ some w ])
      (field_of-value (b ∷ v) unquoted)

served :
    (n : Node) (r : Request)
    → is_get r.method ≡ true
    → bytes_eq (query_get r (bytes "key")) [] ≡ false
    → wjetcd.Server.Handler.http_get n r ≡ value (get n (query_get r (bytes "key")))
unfolding wjetcd.Server.Handler.http_get
served n r gets named = rw (gets, named) refl

module _ (fetch : ByteString → Option Response) (key : ByteString) where
  -- A client reads the value that the first server has which answers with one: the value has no
  -- quotation mark and is not empty, and the servers before that one do not answer, or with another
  -- status.
  pub http_get-reads :
      (before after : List ByteString) (addr : ByteString) (n : Node) (r : Request)
      → All (λ a. IsSilent (fetch (get_url a key))) before
      → is_get r.method ≡ true
      → query_get r (bytes "key") ≡ key
      → bytes_eq key [] ≡ false
      → fetch (get_url addr key) ≡ get_response (wjetcd.Server.Handler.http_get n r)
      → IsUnquoted (get n key)
      → bytes_eq (get n key) [] ≡ false
      → http_get fetch (before ++ addr ∷ after) key ≡ some (get n key)
  unfolding http_get
  http_get-reads [] after addr n r p gets asked named e unquoted there =
      let named_in : bytes_eq (query_get r (bytes "key")) [] ≡ false =
        ap (λ k. bytes_eq k []) asked ∙ named in
      let answer : fetch (get_url addr key) ≡ get_response (value (get n key)) =
        e ∙ ap get_response (served n r gets named_in ∙ ap (λ k. value (get n k)) asked) in
      ap (λ o. get_answered o (http_get fetch after key)) answer
      ∙ read_value (get n key) (http_get fetch after key) unquoted there
  http_get-reads (a ∷ before) after addr n r p gets asked named e unquoted there =
      passed_silent (fetch (get_url a key)) (http_get fetch (before ++ addr ∷ after) key) p.0
      ∙ http_get-reads before after addr n r p.1 gets asked named e unquoted there
