-- ===== src/Client.antt =====
-- cmd/client/client.go: the command line client. What `http.Post` and `http.Get` give for a URL is
-- an argument: a response, or none where they fail.
pub mod Search
pub mod Finds
use wjetcd.Common.{
  ℕ, zero, suc, ◌+◌, Bool, true, false, ◌||◌, if◌then◌else◌, ◌==◌, Option, none, some, List, [],
  ◌∷◌, ◌++◌, ByteString, bytes, bytes_eq, has_prefix, take, drop,
}
use wjetcd.Server.Handler.Texts.{Response}

infixl 5 ◌>>=◌
abbrev pub ◌>>=◌ {ℓ κ} : {A : Type ℓ} {B : Type κ} → Option A → (A → Option B) → Option B
none >>= f = none
some a >>= f = f a

-- `strings.Index(s, p)`
unfoldable pub index_of : ByteString → ByteString → Option ℕ
index_of p [] = if has_prefix p [] then some 0 else none
index_of p (b ∷ s) =
    let later = index_of p s in
    if has_prefix p (b ∷ s) then some 0 else (elim later [ none ↦ none | some i ↦ some (suc i) ])

-- `strings.Contains(s, p)`
unfoldable pub contains : ByteString → ByteString → Bool
contains s p = elim (index_of p s) [ none ↦ false | some i ↦ true ]

-- The text between a mark of some length and the next quotation mark.
unfoldable pub field_of : ByteString → ℕ → ByteString → Option ByteString
unfolding index_of
field_of mark n content = do
  i ← index_of mark content
  let rest = drop (i + n) content
  quote ← index_of (bytes "\"") rest
  some (take quote rest)

unfoldable pub put_url : ByteString → ByteString → ByteString → ByteString
put_url addr key value =
    bytes "http://" ++ (addr ++ (bytes "/put?key=" ++ (key ++ (bytes "&value=" ++ value))))

unfoldable pub get_url : ByteString → ByteString → ByteString
get_url addr key = bytes "http://" ++ (addr ++ (bytes "/get?key=" ++ key))

-- What a write comes to: success at an address, an error with its status, or no node that took it.
pub data Written : Type 0 where
  written_at : ByteString → Written
  refused_with : ℕ → ByteString → Written
  all_failed : Written

-- What the loop makes of an address's answer, where `next` is what the addresses after it give.
unfoldable pub put_answered : ByteString → Option Response → Written → Written
unfolding contains
put_answered addr none next = next
put_answered addr (some r) next =
    if r.status == 200
    then written_at addr
    else if contains r.body (bytes "not leader")
    then next
    else refused_with r.status r.body

unfoldable pub http_put :
    (ByteString → Option Response) → List ByteString → ByteString → ByteString → Written
unfolding put_answered put_url
http_put post [] key value = all_failed
http_put post (addr ∷ rest) key value =
    put_answered addr (post (put_url addr key value)) (http_put post rest key value)

-- `len(val) > 0`
unfoldable pub filled : Option ByteString → Option ByteString
filled none = none
filled (some []) = none
filled (some (b ∷ v)) = some (b ∷ v)

-- The value in a response, if there is one and it is not empty.
unfoldable pub value_in : Response → Option ByteString
unfolding field_of filled
value_in r = if r.status == 200 then filled (field_of (bytes "\"value\":\"") 9 r.body) else none

unfoldable pub get_answered : Option Response → Option ByteString → Option ByteString
unfolding value_in
get_answered none next = next
get_answered (some r) next = elim (value_in r) [ none ↦ next | some v ↦ some v ]

unfoldable pub http_get :
    (ByteString → Option Response) → List ByteString → ByteString → Option ByteString
unfolding get_answered get_url
http_get fetch [] key = none
http_get fetch (addr ∷ rest) key = get_answered (fetch (get_url addr key)) (http_get fetch rest key)

-- `none` is the error of `http.Get`; a body without a status gives the empty one.
unfoldable pub http_health : (ByteString → Option Response) → ByteString → Option ByteString
unfolding field_of
http_health fetch base_url = do
  r ← fetch (base_url ++ bytes "/health")
  some (elim (field_of (bytes "\"status\":\"") 10 r.body) [ none ↦ [] | some status ↦ status ])

-- `strings.Split(s, ",")`
unfoldable pub split_commas : ByteString → List ByteString
split_commas [] = [] ∷ []
split_commas (b ∷ s) =
    let rest = split_commas s in
    if b == 44
    then [] ∷ rest
    else (elim rest [ [] ↦ (b ∷ []) ∷ [] | first ∷ more ↦ (b ∷ first) ∷ more ])

-- What `main` prints.
pub data Printed : Type 0 where
  usage put_requires get_requires unknown_operation : Printed
  put_result : Written → Printed
  get_result health_result : Option ByteString → Printed

unfoldable pub client_main :
    (ByteString → Option Response)
    → (ByteString → Option Response)
    → ByteString
    → ByteString
    → ByteString
    → ByteString
    → Printed
unfolding http_put http_get http_health split_commas
client_main post fetch addrs op key value =
    if bytes_eq op []
    then usage
    else if bytes_eq op (bytes "put")
    then (if bytes_eq key [] || bytes_eq value []
        then put_requires
        else put_result (http_put post (split_commas addrs) key value))
    else if bytes_eq op (bytes "get")
    then (if bytes_eq key []
        then get_requires
        else get_result (http_get fetch (split_commas addrs) key))
    else if bytes_eq op (bytes "health")
    then health_result (http_health fetch (bytes "http://" ++ addrs))
    else unknown_operation
