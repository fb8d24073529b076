-- ===== src/Proxy/Cache/Tests.antt =====
-- The cache and its messages at concrete values.
use astradns_agent.Common.{
  ℕ, ◌+◌, ◌*◌, ◌≡◌, ◌≢◌, ◌↔◌, ◌≤◌, refl, false, none, some, [], ◌∷◌, Text, codes, All, map, arith,
  second, ltb, leb, if◌then◌else◌, lookup, insert, delete, text_eq, to_lower, decimal, digits, ◌/◌,
  ◌-◌, retain,
}
use astradns_agent.Dns.{Question, Msg}
use astradns_agent.Proxy.Message.{
  cache_key, key_of, question_key, is_cacheable_response, cache_entry_ttl, min_response_ttl,
  min_records, min_ttl, all_records, aged,
}
use astradns_agent.Proxy.Message.Key.{cache_key-eq_iff}
use astradns_agent.Proxy.Message.Ages.{Lasts, AgesBy, cache_entry_ttl-Lasts}
use astradns_agent.Proxy.Cache.{
  CachedResponse, ResponseCache, default_stale_ttl, evict_oldest_locked, clone_cached_response,
  store, store_response, store_entry, make_room, evict_expired_locked, within_stale, fresh_response,
  get, get_stale,
}
use astradns_agent.Proxy.Cache.Evict.{evict_oldest_locked_lem}
use astradns_agent.Proxy.Cache.Size.{IsSound}
use astradns_agent.Proxy.Cache.Serves.{seconds_since, Meets, get_stale-store-Meets}
use astradns_agent.Proxy.Message.Copies.{IsLess, IsOne, IsCopy}
use astradns_agent.Proxy.Cache.Lookup.{IsKept, entry_for, get-store, get-store_other}
use astradns_agent.Proxy.Cache.Fresh.{IsTimed, get-ages}

abbrev question_example : Question
question_example = record { name = codes "a."; qtype = 1; qclass = 1 }

abbrev shouted_example : Question
shouted_example = record { name = codes "A."; qtype = 1; qclass = 1 }

abbrev asking : ℕ → Question → Msg
asking id q = record {
  id = id;
  rcode = 0;
  truncated = false;
  question = q ∷ [];
  answer = [];
  ns = [];
  extra = [];
}

abbrev response_example : Msg
response_example = record (asking 7 question_example) {
  answer = record { header = some 60; body = 1 } ∷ [];
}

abbrev empty_cache : ResponseCache
empty_cache = record {
  entries = [];
  max_entries = 2;
  default_ttl = 30 * second;
  stale_ttl = default_stale_ttl;
}

empty_cache-IsSound : IsSound empty_cache
empty_cache-IsSound = record {
  room = omega arith;
  bounded = omega arith;
  distinct = tt;
  named = tt;
}

response-IsKept : IsKept empty_cache response_example
unfolding is_cacheable_response cache_entry_ttl min_response_ttl min_records min_ttl
response-IsKept = record { cacheable = refl; lasting = omega arith }

abbrev key_example : Text
key_example = codes "a.|1|1"

key_of_example : cache_key (some (asking 7 question_example)) ≡ some key_example
unfolding cache_key key_of question_key to_lower decimal digits
key_of_example = refl

key_of_shouted : cache_key (some (asking 9 shouted_example)) ≡ some key_example
unfolding cache_key key_of question_key to_lower decimal digits
key_of_shouted = refl

cache_key-eq_iff_example :
    (cache_key (some (asking 7 question_example)) ≡ cache_key (some (asking 9 shouted_example))) ↔ (
      (to_lower (codes "a.") ≡ to_lower (codes "A."))
      × (question_example.qtype ≡ shouted_example.qtype)
      × (question_example.qclass ≡ shouted_example.qclass))
cache_key-eq_iff_example =
    cache_key-eq_iff (asking 7 question_example) (asking 9 shouted_example) question_example
      shouted_example [] [] refl refl

cache_entry_ttl-Lasts_example :
    All
      (λ r. Lasts (cache_entry_ttl (some response_example) (30 * second)) r.header)
      (all_records response_example)
cache_entry_ttl-Lasts_example = cache_entry_ttl-Lasts response_example (30 * second)

get-store_example :
    get
      (store (some empty_cache) (some (asking 7 question_example)) (some response_example) 1000)
      (some (asking 9 shouted_example))
      2000
    ≡ (if ltb 2000 (1000 + cache_entry_ttl (some response_example) empty_cache.default_ttl)
        then some (
            clone_cached_response
              (entry_for empty_cache response_example 1000)
              (some (asking 9 shouted_example))
              2000)
        else none)
get-store_example =
    get-store empty_cache (some (asking 7 question_example)) (some (asking 9 shouted_example))
      response_example key_example 1000 2000 key_of_example key_of_shouted response-IsKept

get_stale-store-Meets_example :
    Meets
      (if ltb
          (100 * second)
          (1000 + cache_entry_ttl (some response_example) empty_cache.default_ttl)
        then some (
            IsCopy
              (IsLess (seconds_since 1000 (100 * second)))
              (asking 9 shouted_example)
              response_example)
        else if leb (100 * second) (
            1000
            + cache_entry_ttl (some response_example) empty_cache.default_ttl
            + empty_cache.stale_ttl)
        then some (IsCopy IsOne (asking 9 shouted_example) response_example)
        else none)
      (get_stale
        (store (some empty_cache) (some (asking 7 question_example)) (some response_example) 1000)
        (some (asking 9 shouted_example))
        (100 * second))
get_stale-store-Meets_example =
    get_stale-store-Meets empty_cache (some (asking 7 question_example)) (asking 9 shouted_example)
      response_example key_example 1000 (100 * second) key_of_example key_of_shouted response-IsKept

abbrev stored_example : CachedResponse
stored_example = entry_for empty_cache response_example 1000

abbrev one_entry : ResponseCache
one_entry = record empty_cache { entries = (key_example, stored_example) ∷ [] }

one_entry-IsSound : IsSound one_entry
unfolding lookup
one_entry-IsSound = record {
  room = omega arith;
  bounded = omega arith;
  distinct = (refl, tt);
  named = (λ e. ground arith, tt);
}

other_question : Question
other_question = record { name = codes "b."; qtype = 1; qclass = 1 }

other-ne : cache_key (some (asking 3 other_question)) ≢ cache_key (some (asking 7 question_example))
unfolding cache_key key_of question_key to_lower decimal digits other_question
other-ne e = ground arith

found_in_two :
    get
      (store (some one_entry) (some (asking 3 other_question)) (some response_example) 2000)
      (some (asking 7 question_example))
      3000
    ≡ some (clone_cached_response stored_example (some (asking 7 question_example)) 3000)
unfolding get store fresh_response store_response store_entry make_room evict_expired_locked
    within_stale is_cacheable_response cache_entry_ttl min_response_ttl min_records min_ttl
    cache_key key_of question_key to_lower decimal digits other_question lookup insert retain
    text_eq
found_in_two = refl

get-store_other_example :
    get (some one_entry) (some (asking 7 question_example)) 3000
    ≡ some (clone_cached_response stored_example (some (asking 7 question_example)) 3000)
get-store_other_example =
    get-store_other one_entry (some (asking 3 other_question)) (some response_example)
      (some (asking 7 question_example)) 2000 3000 _ one_entry-IsSound other-ne found_in_two

one_entry-IsTimed : IsTimed one_entry
unfolding lookup
one_entry-IsTimed k e h = ground arith

found_in_one : lookup key_example one_entry.entries ≡ some stored_example
unfolding lookup text_eq
found_in_one = refl

lasts_a_minute : cache_entry_ttl (some response_example) empty_cache.default_ttl ≡ 60 * second
unfolding cache_entry_ttl min_response_ttl min_records min_ttl
lasts_a_minute = refl

get-ages_example :
    (r : Msg) × (get (some one_entry) (some (asking 7 question_example)) (5 * second) ≡ some r)
    × (all_records r ≡ map (aged ((5 * second - 1000) / second)) (all_records response_example))
    × All
        (λ x.
          AgesBy
            ((5 * second - 1000) / second)
            x.header
            (aged ((5 * second - 1000) / second) x).header)
        (all_records response_example)
get-ages_example =
    get-ages one_entry (some (asking 7 question_example)) key_example (5 * second) stored_example
      one_entry-IsTimed key_of_example found_in_one (omega arith) (omega (arith, lasts_a_minute))
      (omega (arith, lasts_a_minute))

evict_oldest_locked_lem_example :
    (key : Text) × (e : CachedResponse) × (lookup key one_entry.entries ≡ some e)
    × (evict_oldest_locked one_entry ≡ record one_entry { entries = delete key one_entry.entries })
    × ((k : Text) (other : CachedResponse)
        → lookup k one_entry.entries ≡ some other
        → e.expires_at ≤ other.expires_at)
evict_oldest_locked_lem_example =
    evict_oldest_locked_lem one_entry (λ e. cc) one_entry-IsSound.named one_entry-IsSound.distinct
