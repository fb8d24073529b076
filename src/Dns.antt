-- ===== src/Dns.antt =====
-- The part of github.com/miekg/dns that the agent uses: a message with the fields that are read or
-- written, and as a parameter the functions and tables of that package.
use astradns_agent.Common.{ℕ, ◌≡◌, Bool, Option, List, Text}

-- A resource record: `header` is the `Ttl` of its header, `none` where `Header()` is nil; `body`
-- stands for all the rest, which the agent passes on unread.
pub record Rr : Type 0 where
  pub header : Option ℕ
  pub body : ℕ

pub record Question : Type 0 where
  pub name : Text
  pub qtype : ℕ
  pub qclass : ℕ

pub record Msg : Type 0 where
  pub id : ℕ
  pub rcode : ℕ
  pub truncated : Bool
  pub question : List Question
  pub answer : List Rr
  pub ns : List Rr
  pub extra : List Rr

-- `dns.RcodeSuccess`, `dns.RcodeServerFailure`, `dns.RcodeNameError` and `dns.RcodeRefused`.
abbrev pub rcode_success : ℕ
rcode_success = 0

abbrev pub rcode_server_failure : ℕ
rcode_server_failure = 2

abbrev pub rcode_name_error : ℕ
rcode_name_error = 3

abbrev pub rcode_refused : ℕ
rcode_refused = 5

-- `SetRcode` makes a reply to a request, with its id and its question and the code given.
-- `TypeToString` and `RcodeToString` are the tables of names.
pub record DnsLib : Type 0 where
  pub set_rcode : Msg → ℕ → Msg
  pub type_to_string : ℕ → Option Text
  pub rcode_to_string : ℕ → Option Text
  pub id-set_rcode : (q : Msg) (r : ℕ) → (set_rcode q r).id ≡ q.id
  pub rcode-set_rcode : (q : Msg) (r : ℕ) → (set_rcode q r).rcode ≡ r
