-- ===== src/Network/Dns.antt =====
-- network/dns_resolver.cpp: the address of a host. The HTTP client and the JSON reader are parameters.
pub mod Answers
use gtproxy.Prelude.{
  some-injective, ◌∙◌, sym, subst, ℕ, Bool, true, false, not, ◌||◌, ◌≡◌, refl, ap, arith, List, [],
  ◌∷◌, ◌++◌, Option, none, some, Bytes, bytes, ◌==◌, ==_iff, if◌then◌else◌, str_eq, Bool-cases, inl,
  inr, Option-cases, ◌⊎◌,
}
use gtproxy.Utils.TextParse.{is_empty}
use gtproxy.Utils.Network.{HostType, ip_address, hostname, classify_host, is_valid_ip_address}

pub data DnsProvider : Type 0 where
  cloudflare google : DnsProvider

-- An unknown name is Google's.
unfoldable pub create_dns_provider : (name : Bytes) → DnsProvider
create_dns_provider name =
    if str_eq name (bytes "cloudflare")
    then cloudflare
    else if str_eq name (bytes "google")
    then google
    else google

unfoldable pub get_host : DnsProvider → Bytes
get_host cloudflare = bytes "cloudflare-dns.com"
get_host google = bytes "dns.google"

unfoldable pub get_path : DnsProvider → Bytes
get_path cloudflare = bytes "/dns-query"
get_path google = bytes "/resolve"

-- The number of the status, as the response has it: NoError is 0.
pub record DnsResult : Type 0 where
  pub status : ℕ
  pub ip : Bytes

abbrev pub no_error : ℕ
no_error = 0

abbrev pub server_fail : DnsResult
server_fail = record { status = 2; ip = [] }

-- The status and the data of the answers.
pub record DnsResponse : Type 0 where
  pub status : ℕ
  pub answer : List Bytes

-- A `httplib::Result` that has a response.
pub record Reply : Type 0 where
  pub succeeded : Bool
  pub status : ℕ
  pub body : Bytes

-- `cli.Get` at a host, and `glz::read`, which gives nothing where it reports an error.
pub record Services : Type 0 where
  pub http_get : (host path : Bytes) → Option Reply
  pub read_response : Bytes → Option DnsResponse

abbrev pub last_of : Bytes → List Bytes → Bytes
last_of a [] = a
last_of a (b ∷ bs) = last_of b bs

unfoldable pub result_of : DnsResponse → DnsResult
result_of response =
    if not (response.status == no_error)
    then record { status = response.status; ip = [] }
    else elim response.answer [
      | [] ↦ record { status = 3; ip = [] }
      | a ∷ as' ↦ record { status = response.status; ip = last_of a as' }
    ]

unfoldable pub read_reply : Services → Reply → DnsResult
unfolding result_of
read_reply w reply =
    if not reply.succeeded || not (reply.status == 200)
    then server_fail
    else if is_empty reply.body
    then server_fail
    else elim (w.read_response reply.body) [ none ↦ server_fail | some r ↦ result_of r ]

unfoldable pub resolve_domain : Services → DnsProvider → (domain : Bytes) → DnsResult
unfolding get_host get_path read_reply
resolve_domain w provider domain =
    elim (w.http_get (get_host provider)
      (get_path provider ++ (bytes "?name=" ++ (domain ++ bytes "&type=A")))) [
        | none ↦ server_fail
        | some reply ↦ read_reply w reply
      ]

unfoldable pub resolve_ip : Services → DnsProvider → (host : Bytes) → Bytes
unfolding classify_host resolve_domain
resolve_ip w provider host = elim (classify_host host) [
  | ip_address ↦ host
  | hostname ↦
      let result = resolve_domain w provider host in
      if not (result.status == no_error) then [] else result.ip
]
