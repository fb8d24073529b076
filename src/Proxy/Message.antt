-- ===== src/Proxy/Message.antt =====
-- What pkg/proxy/cache.go and the end of pkg/proxy/proxy.go read from a message and write to its
-- records. A `*dns.Msg` that may be nil is an `Option Msg`; `Copy` makes a copy, so a message is
-- a value here.
pub mod Key
pub mod Ages
pub mod Copies
use astradns_agent.Common.{
  ℕ, ◌+◌, ◌-◌, ◌*◌, ◌/◌, ◌%◌, ◌^◌, Bool, true, false, not, ◌||◌, ◌==◌, ltb, leb, Option, none, some,
  List, [], ◌∷◌, ◌++◌, map, Text, codes, to_lower, decimal, trim_suffix_dot, second, if◌then◌else◌,
}
use astradns_agent.Dns.{Rr, Question, Msg, rcode_success, DnsLib}

-- `cacheKey`: name in lower case, type and class of the first question.
unfoldable pub question_key : Question → Text
question_key q =
    to_lower q.name ++ (codes "|" ++ (decimal q.qtype ++ (codes "|" ++ decimal q.qclass)))

unfoldable pub key_of : List Question → Option Text
key_of [] = none
key_of (q ∷ rest) = some (question_key q)

unfoldable pub cache_key : Option Msg → Option Text
cache_key none = none
cache_key (some request) = key_of request.question

unfoldable pub is_cacheable_response : Option Msg → Bool
is_cacheable_response none = false
is_cacheable_response (some response) =
    if not (response.rcode == rcode_success)
    then false
    else if response.truncated
    then false
    else true

-- The loop of `minResponseTTL`, over `minTTL` and `seen`.
unfoldable pub min_ttl : ℕ × Bool → Option ℕ → ℕ × Bool
min_ttl (least, seen) none = (least, seen)
min_ttl (least, seen) (some ttl) =
    if ttl == 0
    then (least, seen)
    else if not seen || ltb ttl least
    then (ttl, true)
    else (least, seen)

unfoldable pub min_records : ℕ × Bool → List Rr → ℕ × Bool
min_records acc [] = acc
min_records acc (r ∷ records) = min_records (min_ttl acc r.header) records

abbrev pub all_records : Msg → List Rr
all_records m = m.answer ++ (m.ns ++ m.extra)

abbrev pub ttl_of : ℕ × Bool → ℕ
ttl_of (least, seen) = if seen then least * second else 0

unfoldable pub min_response_ttl : Option Msg → ℕ
min_response_ttl none = 0
min_response_ttl (some m) =
    ttl_of (min_records (min_records (min_records (0, false) m.answer) m.ns) m.extra)

unfoldable pub cache_entry_ttl : Option Msg → ℕ → ℕ
cache_entry_ttl response fallback =
    let least = min_response_ttl response in if ltb 0 least then least else fallback

-- The loop of `cloneCachedResponse` takes the seconds that have passed from a record's `Ttl`.
unfoldable pub aged : ℕ → Rr → Rr
aged elapsed r = elim r.header [
  | none ↦ r
  | some ttl ↦
      if ttl == 0
      then r
      else if leb ttl elapsed
      then record r { header = some 0 }
      else record r { header = some (ttl - elapsed) }
]

-- The loop of `GetStale` sets every `Ttl` to 1.
unfoldable pub staled : Rr → Rr
staled r = elim r.header [ none ↦ r | some ttl ↦ record r { header = some 1 } ]

-- A loop over the three sections.
unfoldable pub map_records : (Rr → Rr) → Msg → Msg
map_records f m = record m { answer = map f m.answer; ns = map f m.ns; extra = map f m.extra }

-- `if request != nil { response.Id = request.Id }`
unfoldable pub with_id : Option Msg → Msg → Msg
with_id none response = response
with_id (some request) response = record response { id = request.id }

-- `uint32(now.Sub(storedAt).Seconds())`. Where the clock of the caller is behind `storedAt`, Go
-- leaves the result to the platform from a whole second on; it is 0 here.
unfoldable pub elapsed_seconds : ℕ → ℕ → ℕ
elapsed_seconds stored_at now = (now - stored_at) / second % 2 ^ 32

unfoldable pub normalize_domain : Option Msg → Text
normalize_domain none = []
normalize_domain (some request) = elim request.question [
  | [] ↦ []
  | q ∷ rest ↦ trim_suffix_dot q.name
]

module _ (lib : DnsLib) where
  abbrev pub named : Option Text → Text → ℕ → Text
  named none prefix n = prefix ++ decimal n
  named (some name) prefix n = name

  unfoldable pub query_type : Option Msg → Text
  query_type none = codes "UNKNOWN"
  query_type (some request) = elim request.question [
    | [] ↦ codes "UNKNOWN"
    | q ∷ rest ↦ named (lib.type_to_string q.qtype) (codes "TYPE") q.qtype
  ]

  unfoldable pub response_code : Option Msg → Text
  response_code none = codes "SERVFAIL"
  response_code (some response) =
      named (lib.rcode_to_string response.rcode) (codes "RCODE") response.rcode
