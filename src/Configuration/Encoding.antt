-- ===== src/Configuration/Encoding.antt =====
-- A writer of the settings that tells different settings apart, to try `Diff` with.
use atlas_dns.Base.{ℕ, String, ◌≡◌, refl, sym, ap, Bool, true, false, List, [], ◌∷◌, arith}
use Prim.Native.String.{◌∷◌ as cons}
use text.Mathlib.TextLemmas.{tail-eq_of_cons-eq}
use atlas_dns.Base.Int.{ℤ, pos, negsuc}
use atlas_dns.Base.Code.{
  Code, char_t, char_f, apart, flag_code, number_code, text_code, pair_code, code_by, option_code,
}
use atlas_dns.Configuration.Model.{
  PersistentClient, Rewrite, Schedule, DayRange, SafeSearch, QueryLogPolicy, StatisticsPolicy,
  DhcpConfig, DhcpIpv4, DhcpIpv6, DhcpStaticLease, Unsupported,
}
use atlas_dns.Configuration.Rows.{Kind, Value}

module _ {A : Type 0} (a : Code A) where
  abbrev pub put_list : List A → String → String
  put_list [] r = cons char_f r
  put_list (x ∷ xs) r = cons char_t (a.put x (put_list xs r))

  pub read_list : (x y : List A) (r s : String) → put_list x r ≡ put_list y s → (x ≡ y) × (r ≡ s)
  read_list [] [] r s e = (refl, tail-eq_of_cons-eq e)
  read_list [] (y ∷ ys) r s e = apart (a.put y (put_list ys s)) r (sym e)
  read_list (x ∷ xs) [] r s e = apart (a.put x (put_list xs r)) s e
  read_list (x ∷ xs) (y ∷ ys) r s e =
      let (first, later) = a.read x y (put_list xs r) (put_list ys s) (tail-eq_of_cons-eq e) in
      let (others, rest) = read_list xs ys r s later in ((λ i. first i ∷ others i), rest)

  abbrev pub list_code : Code (List A)
  list_code = record { put = put_list; read = read_list }

abbrev pub int_parts : ℤ → Bool × ℕ
int_parts (pos n) = (true, n)
int_parts (negsuc n) = (false, n)

pub int_parts_injective : (a b : ℤ) → int_parts a ≡ int_parts b → a ≡ b
int_parts_injective (pos m) (pos n) e = ap (λ p. pos p.1) e
int_parts_injective (pos m) (negsuc n) e = absurd (ground arith)
int_parts_injective (negsuc m) (pos n) e = absurd (ground arith)
int_parts_injective (negsuc m) (negsuc n) e = ap (λ p. negsuc p.1) e

abbrev pub int_code : Code ℤ
int_code = code_by int_parts int_parts_injective (pair_code flag_code number_code)

abbrev pub texts_code : Code (List String)
texts_code = list_code text_code

abbrev pub search_code : Code SafeSearch
search_code =
    code_by
      (λ a. (
        a.enabled,
        (a.bing, (a.duckduckgo, (a.ecosia, (a.google, (a.pixabay, (a.yandex, a.youtube)))))),
      ))
      (λ a b e. λ i. record {
        enabled = (e i).0;
        bing = (e i).1.0;
        duckduckgo = (e i).1.1.0;
        ecosia = (e i).1.1.1.0;
        google = (e i).1.1.1.1.0;
        pixabay = (e i).1.1.1.1.1.0;
        yandex = (e i).1.1.1.1.1.1.0;
        youtube = (e i).1.1.1.1.1.1.1;
      })
      (pair_code flag_code (
        pair_code flag_code (
          pair_code flag_code (
            pair_code flag_code
              (pair_code flag_code (pair_code flag_code (pair_code flag_code flag_code)))))))

abbrev pub range_code : Code DayRange
range_code =
    code_by (λ a. (a.start, a.end)) (λ a b e. λ i. record { start = (e i).0; end = (e i).1 })
      (pair_code int_code int_code)

abbrev pub schedule_code : Code Schedule
schedule_code =
    code_by (λ a. (a.time_zone, a.days))
      (λ a b e. λ i. record { time_zone = (e i).0; days = (e i).1 })
      (pair_code text_code (list_code (pair_code text_code range_code)))

abbrev pub client_code : Code PersistentClient
client_code =
    code_by
      (λ a. (
        a.name,
        (
          a.ids,
          (
            a.use_global_settings,
            (
              a.filtering_enabled,
              (
                a.parental_enabled,
                (
                  a.safe_browsing_enabled,
                  (
                    a.safe_search,
                    (
                      a.use_global_blocked_services,
                      (
                        a.blocked_services,
                        (
                          a.blocked_services_schedule,
                          (
                            a.upstreams,
                            (
                              a.upstreams_cache_enabled,
                              (
                                a.upstreams_cache_size,
                                (a.tags, (a.ignore_query_log, a.ignore_statistics)),
                              ),
                            ),
                          ),
                        ),
                      ),
                    ),
                  ),
                ),
              ),
            ),
          ),
        ),
      ))
      (λ a b e. λ i. record {
        name = (e i).0;
        ids = (e i).1.0;
        use_global_settings = (e i).1.1.0;
        filtering_enabled = (e i).1.1.1.0;
        parental_enabled = (e i).1.1.1.1.0;
        safe_browsing_enabled = (e i).1.1.1.1.1.0;
        safe_search = (e i).1.1.1.1.1.1.0;
        use_global_blocked_services = (e i).1.1.1.1.1.1.1.0;
        blocked_services = (e i).1.1.1.1.1.1.1.1.0;
        blocked_services_schedule = (e i).1.1.1.1.1.1.1.1.1.0;
        upstreams = (e i).1.1.1.1.1.1.1.1.1.1.0;
        upstreams_cache_enabled = (e i).1.1.1.1.1.1.1.1.1.1.1.0;
        upstreams_cache_size = (e i).1.1.1.1.1.1.1.1.1.1.1.1.0;
        tags = (e i).1.1.1.1.1.1.1.1.1.1.1.1.1.0;
        ignore_query_log = (e i).1.1.1.1.1.1.1.1.1.1.1.1.1.1.0;
        ignore_statistics = (e i).1.1.1.1.1.1.1.1.1.1.1.1.1.1.1;
      })
      (pair_code text_code (
        pair_code texts_code (
          pair_code flag_code (
            pair_code flag_code (
              pair_code flag_code (
                pair_code flag_code (
                  pair_code search_code (
                    pair_code flag_code (
                      pair_code texts_code (
                        pair_code schedule_code (
                          pair_code texts_code (
                            pair_code flag_code (
                              pair_code int_code
                                (pair_code texts_code (pair_code flag_code flag_code)))))))))))))))

abbrev pub rewrite_code : Code Rewrite
rewrite_code =
    code_by (λ a. (a.domain, (a.answer, a.enabled)))
      (λ a b e. λ i. record { domain = (e i).0; answer = (e i).1.0; enabled = (e i).1.1 })
      (pair_code text_code (pair_code text_code flag_code))

abbrev pub query_log_code : Code QueryLogPolicy
query_log_code =
    code_by
      (λ a.
        (a.enabled, (a.interval_millis, (a.anonymize_client_ip, (a.ignored, a.ignored_enabled)))))
      (λ a b e. λ i. record {
        enabled = (e i).0;
        interval_millis = (e i).1.0;
        anonymize_client_ip = (e i).1.1.0;
        ignored = (e i).1.1.1.0;
        ignored_enabled = (e i).1.1.1.1;
      })
      (pair_code flag_code
        (pair_code int_code (pair_code flag_code (pair_code texts_code flag_code))))

abbrev pub statistics_code : Code StatisticsPolicy
statistics_code =
    code_by (λ a. (a.enabled, (a.interval_millis, (a.ignored, a.ignored_enabled))))
      (λ a b e. λ i. record {
        enabled = (e i).0;
        interval_millis = (e i).1.0;
        ignored = (e i).1.1.0;
        ignored_enabled = (e i).1.1.1;
      })
      (pair_code flag_code (pair_code int_code (pair_code texts_code flag_code)))

abbrev pub ipv4_code : Code DhcpIpv4
ipv4_code =
    code_by (λ a. (a.gateway, (a.subnet_mask, (a.range_start, (a.range_end, a.lease_duration)))))
      (λ a b e. λ i. record {
        gateway = (e i).0;
        subnet_mask = (e i).1.0;
        range_start = (e i).1.1.0;
        range_end = (e i).1.1.1.0;
        lease_duration = (e i).1.1.1.1;
      })
      (pair_code text_code
        (pair_code text_code (pair_code text_code (pair_code text_code int_code))))

abbrev pub ipv6_code : Code DhcpIpv6
ipv6_code =
    code_by (λ a. (a.range_start, a.lease_duration))
      (λ a b e. λ i. record { range_start = (e i).0; lease_duration = (e i).1 })
      (pair_code text_code int_code)

abbrev pub lease_code : Code DhcpStaticLease
lease_code =
    code_by (λ a. (a.mac, (a.ip, a.hostname)))
      (λ a b e. λ i. record { mac = (e i).0; ip = (e i).1.0; hostname = (e i).1.1 })
      (pair_code text_code (pair_code text_code text_code))

abbrev pub dhcp_code : Code DhcpConfig
dhcp_code =
    code_by (λ a. (a.enabled, (a.interface_name, (a.ipv4, (a.ipv6, a.static_leases)))))
      (λ a b e. λ i. record {
        enabled = (e i).0;
        interface_name = (e i).1.0;
        ipv4 = (e i).1.1.0;
        ipv6 = (e i).1.1.1.0;
        static_leases = (e i).1.1.1.1;
      })
      (pair_code flag_code
        (pair_code text_code (pair_code ipv4_code (pair_code ipv6_code (list_code lease_code)))))

abbrev pub area_code : Code Unsupported
area_code =
    code_by (λ a. (a.section, a.reason))
      (λ a b e. λ i. record { section = (e i).0; reason = (e i).1 }) (pair_code text_code text_code)

abbrev pub value_code : (k : Kind) → Code (Value k)
value_code Kind.texts = texts_code
value_code Kind.flag = flag_code
value_code Kind.integer = int_code
value_code Kind.word = text_code
value_code Kind.clients = list_code client_code
value_code Kind.rewrites = pair_code flag_code (list_code rewrite_code)
value_code Kind.blocked = pair_code texts_code schedule_code
value_code Kind.search = search_code
value_code Kind.query_log = query_log_code
value_code Kind.statistics = statistics_code
value_code Kind.custom = pair_code flag_code text_code
value_code Kind.cache =
    code_by (λ c. (c.0, (c.1, (c.2, (c.3, c.4)))))
      (λ a b e. λ i. ((e i).0, (e i).1.0, (e i).1.1.0, (e i).1.1.1.0, (e i).1.1.1.1))
      (pair_code flag_code (pair_code int_code (pair_code int_code (pair_code int_code flag_code))))
value_code Kind.both = pair_code flag_code flag_code
value_code Kind.dhcp = option_code dhcp_code
value_code Kind.areas = list_code area_code

abbrev pub write : (k : Kind) → Value k → String
write k a = (value_code k).put a ""

pub write_injective : (k : Kind) (a b : Value k) → write k a ≡ write k b → a ≡ b
write_injective k a b e = ((value_code k).read a b "" "" e).0
