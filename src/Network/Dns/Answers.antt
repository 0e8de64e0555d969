-- ===== src/Network/Dns/Answers.antt =====
-- dns_resolver.cpp: what a host is resolved to.
use gtproxy.Prelude.{
  some-injective, ◌∙◌, sym, subst, Bool, true, false, not, ◌≡◌, refl, ap, arith, List, [], ◌∷◌,
  ◌++◌, Option, none, some, Bytes, bytes, ◌==◌, if◌then◌else◌, Bool-cases, inl, inr, Option-cases,
  ◌⊎◌,
}
use gtproxy.Utils.TextParse.{is_empty}
use gtproxy.Utils.Network.{HostType, ip_address, hostname, classify_host, is_valid_ip_address}
use gtproxy.Network.Dns.{
  DnsProvider, cloudflare, google, get_host, get_path, DnsResult, no_error, server_fail,
  DnsResponse, Reply, Services, last_of, result_of, read_reply, resolve_domain, resolve_ip,
}

-- What is asked of a provider for a domain.
abbrev pub query : DnsProvider → Bytes → Bytes
query cloudflare domain = bytes "/dns-query?name=" ++ (domain ++ bytes "&type=A")
query google domain = bytes "/resolve?name=" ++ (domain ++ bytes "&type=A")

abbrev pub server_of : DnsProvider → Bytes
server_of cloudflare = bytes "cloudflare-dns.com"
server_of google = bytes "dns.google"

-- The address is the data of the last of the answers of a response whose status is NoError, to the
-- query for the domain, which succeeded with the status 200 and a body.
pub record IsAnswer (w : Services) (provider : DnsProvider) (domain ip : Bytes) : Type 0 where
  pub reply : Reply
  pub response : DnsResponse
  pub first : Bytes
  pub others : List Bytes
  pub asked : w.http_get (server_of provider) (query provider domain) ≡ some reply
  pub ok : reply.succeeded ≡ true
  pub code : reply.status ≡ 200
  pub full : is_empty reply.body ≡ false
  pub parsed : w.read_response reply.body ≡ some response
  pub no_failure : response.status ≡ no_error
  pub answers : response.answer ≡ first ∷ others
  pub last : ip ≡ last_of first others

request_lem :
    (w : Services) (provider : DnsProvider) (domain : Bytes)
    → w.http_get
        (get_host provider)
        (get_path provider ++ (bytes "?name=" ++ (domain ++ bytes "&type=A")))
      ≡ w.http_get (server_of provider) (query provider domain)
unfolding get_host get_path
request_lem w cloudflare domain = refl
request_lem w google domain = refl

-- What resolve_ip makes of a result.
abbrev text_of : DnsResult → Bytes
text_of r = if not (r.status == no_error) then [] else r.ip

module _ (w : Services) (provider : DnsProvider) (domain : Bytes) where
  abbrev NoAnswer : Type 0
  NoAnswer = (ip : Bytes) → ¬ IsAnswer w provider domain ip

  abbrev Decided : DnsResult → Type 0
  Decided r = IsAnswer w provider domain (text_of r) ⊎ ((text_of r ≡ []) × NoAnswer)

  nothing : (r : DnsResult) → r.ip ≡ [] → NoAnswer → Decided r
  nothing r e h = elim (Bool-cases (r.status == no_error)) [
    | inl k ↦ inr (rw k e, h)
    | inr k ↦ inr (rw k refl, h)
  ]

  module _ (reply : Reply)
      (asked : w.http_get (server_of provider) (query provider domain) ≡ some reply) where
    same_reply : (ip : Bytes) (a : IsAnswer w provider domain ip) → a.reply ≡ reply
    same_reply ip a = some-injective (sym a.asked ∙ asked)

    -- There is no answer where the reply is not as an answer's.
    unlike :
        (ip : Bytes) (f : Reply → Bool) (b : Bool)
        → f reply ≡ not b
        → ((a : IsAnswer w provider domain ip) → f a.reply ≡ b)
        → ¬ IsAnswer w provider domain ip
    unlike ip f b e h a =
        let clash : not b ≡ b = sym e ∙ ap f (sym (same_reply ip a)) ∙ h a in absurd (ground arith)

    module _ (response : DnsResponse) (parsed : w.read_response reply.body ≡ some response) where
      same_response : (ip : Bytes) (a : IsAnswer w provider domain ip) → a.response ≡ response
      same_response ip a =
          some-injective
            (sym a.parsed ∙ ap (λ (r : Reply). w.read_response r.body) (same_reply ip a) ∙ parsed)

      result_of-Decided :
          reply.succeeded ≡ true
          → reply.status ≡ 200
          → is_empty reply.body ≡ false
          → Decided (result_of response)
      unfolding result_of
      result_of-Decided ok code full = elim (Bool-cases (response.status == no_error)) [
        | inr other ↦
            let shape : result_of response ≡ record { status = response.status; ip = [] } =
              rw other refl in
            let different : (ip : Bytes) (a : IsAnswer w provider domain ip) → ⊥ = λ ip a.
              let zero_status : response.status ≡ no_error =
                ap (λ (r : DnsResponse). r.status) (sym (same_response ip a)) ∙ a.no_failure in
              absurd (ground arith) in
            subst Decided (sym shape)
              (nothing (record { status = response.status; ip = [] }) refl different)
        | inl same ↦ go same response.answer refl
      ]
        where
          chosen : List Bytes → DnsResult
          chosen l = elim l [
            | [] ↦ record { status = 3; ip = [] }
            | a ∷ as' ↦ record { status = response.status; ip = last_of a as' }
          ]

          go :
              (response.status == no_error) ≡ true
              → (l : List Bytes) → response.answer ≡ l
              → Decided (result_of response)
          go same [] e =
              let shape : result_of response ≡ record { status = 3; ip = [] } =
                rw same (ap chosen e) in
              let different : (ip : Bytes) (a : IsAnswer w provider domain ip) → ⊥ = λ ip a.
                let clash : Path (List Bytes) [] (a.first ∷ a.others) =
                  sym e
                  ∙ ap (λ (r : DnsResponse). r.answer) (sym (same_response ip a))
                  ∙ a.answers in
                absurd (ground arith) in
              subst Decided (sym shape) (nothing (record { status = 3; ip = [] }) refl different)
          go same (a ∷ rest) e =
              let shape : result_of response
                  ≡ record { status = response.status; ip = last_of a rest } =
                rw same (ap chosen e) in
              subst Decided (sym shape) (
                inl (record {
                  reply = reply;
                  response = response;
                  first = a;
                  others = rest;
                  asked = asked;
                  ok = ok;
                  code = code;
                  full = full;
                  parsed = parsed;
                  no_failure = ground arith;
                  answers = e;
                  last = rw same refl;
                }))

    read_reply-Decided : Decided (read_reply w reply)
    unfolding read_reply
    read_reply-Decided = elim (Bool-cases reply.succeeded) [
      | inr bad ↦
          rw bad
            (nothing server_fail refl (λ ip. unlike ip (λ r. r.succeeded) true bad (λ a. a.ok)))
      | inl ok ↦ elim (Bool-cases (reply.status == 200)) [
        | inr bad ↦
            rw (ok, bad)
              (nothing server_fail refl (λ ip.
                unlike ip (λ r. r.status == 200) true bad (λ a. let c = a.code in ground arith)))
        | inl code ↦ elim (Bool-cases (is_empty reply.body)) [
          | inl bad ↦
              rw (ok, code, bad)
                (nothing server_fail refl
                  (λ ip. unlike ip (λ r. is_empty r.body) false bad (λ a. a.full)))
          | inr full ↦ elim (Option-cases (w.read_response reply.body)) [
            | inl bad ↦
                rw (ok, code, full, bad)
                  (nothing server_fail refl (λ ip a.
                    let clash : Path (Option DnsResponse) none (some a.response) =
                      sym bad
                      ∙ ap (λ (r : Reply). w.read_response r.body) (sym (same_reply ip a))
                      ∙ a.parsed in
                    absurd (ground arith)))
            | inr (r, e) ↦ rw (ok, code, full, e) (result_of-Decided r e ok (ground arith) full)
          ]
        ]
      ]
    ]

  resolve_domain-Decided : Decided (resolve_domain w provider domain)
  unfolding resolve_domain
  resolve_domain-Decided = go (w.http_get (server_of provider) (query provider domain)) refl
    where
      read : Option Reply → DnsResult
      read o = elim o [ none ↦ server_fail | some reply ↦ read_reply w reply ]

      go :
          (o : Option Reply)
          → w.http_get (server_of provider) (query provider domain) ≡ o
          → Decided (resolve_domain w provider domain)
      go none e = subst Decided (sym (ap read (request_lem w provider domain ∙ e))) (
          nothing server_fail refl (λ ip a.
            let clash : Path (Option Reply) none (some a.reply) = sym e ∙ a.asked in
            absurd (ground arith)))
      go (some reply) e =
          subst Decided (sym (ap read (request_lem w provider domain ∙ e)))
            (read_reply-Decided reply e)

-- What a host is resolved to: the text of an address gives itself; any other host gives the answer
-- to the query for it, or nothing, if there is no answer.
pub resolve_ip-IsAnswer :
    (w : Services) (provider : DnsProvider) (host : Bytes)
    → ((is_valid_ip_address host ≡ true) × (resolve_ip w provider host ≡ host))
      ⊎ ((is_valid_ip_address host ≡ false)
          × (IsAnswer w provider host (resolve_ip w provider host)
              ⊎ ((resolve_ip w provider host ≡ [])
                  × ((ip : Bytes) → ¬ IsAnswer w provider host ip))))
unfolding resolve_ip classify_host
resolve_ip-IsAnswer w provider host = elim (Bool-cases (is_valid_ip_address host)) [
  | inl e ↦ let is : classify_host host ≡ ip_address = rw e refl in inl (e, ap answer is)
  | inr e ↦
      let is : classify_host host ≡ hostname = rw e refl in
      let asked : resolve_ip w provider host ≡ answer hostname = ap answer is in
      inr (
        e,
        subst
            (λ (b : Bytes).
              IsAnswer w provider host b
              ⊎ ((b ≡ []) × ((ip : Bytes) → ¬ IsAnswer w provider host ip)))
            (sym asked) (resolve_domain-Decided w provider host),
      )
]
  where
    answer : HostType → Bytes
    answer t = elim t [
      | ip_address ↦ host
      | hostname ↦
          let result = resolve_domain w provider host in
          if not (result.status == no_error) then [] else result.ip
    ]
