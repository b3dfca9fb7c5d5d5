-- ===== src/Tests/Webhook.antt =====
-- A client over a server, with texts that carry how many endpoints there are.
use dns_sync.Base.{◌≡◌, refl, ap, none, some, List, [], ◌∷◌, ℕ, suc, Str, codes, map}
use dns_sync.Attempt.{returned}
use dns_sync.Endpoint.{Endpoint, record_type_a}
use dns_sync.Provider.Memory.{Changes}
use dns_sync.DomainFilter.{DomainFilter}
use dns_sync.Webhook.{Provider, Codecs, IsFaithful}
use dns_sync.Webhook.Remote.{IsRemote, serve-IsRemote}
use dns_sync.Tests.Planner.{record_of}

abbrev plain : Endpoint
plain = record_of (codes "a") record_type_a (codes "1.1.1.1") none

abbrev counted : List Endpoint → List Endpoint
counted es = map (λ e. plain) es

abbrev only_created : Changes → Changes
only_created c = record { create = counted c.create; update_old = []; update_new = []; delete = [] }

abbrev no_filter : DomainFilter
no_filter = record { filters = []; exclude = []; regex = none; regex_exclusion = none }

abbrev one : Endpoint → ℕ
one e = 1

abbrev counting : Codecs
counting = record {
  endpoints = record {
    encode = λ es. map one es;
    decode = λ t. some (map (λ c. plain) t);
    carried = counted;
  };
  changes = record {
    encode = λ c. map one c.create;
    decode = λ t.
        some
          (record { create = map (λ c. plain) t; update_old = []; update_new = []; delete = [] });
    carried = only_created;
  };
  domain_filter = record {
    encode = λ f. [];
    decode = λ t. some no_filter;
    carried = λ f. no_filter;
  };
}

count_again : (es : List Endpoint) → map (λ c. plain) (map one es) ≡ counted es
count_again [] = refl
count_again (e ∷ es) = ap (λ xs. plain ∷ xs) (count_again es)

endpoints-IsFaithful : IsFaithful counting.endpoints
endpoints-IsFaithful es = ap some (count_again es)

changes-IsFaithful : IsFaithful counting.changes
changes-IsFaithful c =
    ap (λ es. some (record { create = es; update_old = []; update_new = []; delete = [] }))
      (count_again c.create)

-- A provider that counts its calls and refuses to adjust
abbrev counter : Provider ℕ
counter = record {
  records = λ n. (returned (plain ∷ []), suc n);
  apply_changes = λ c n. (none, suc n);
  adjust_endpoints = λ es n. ((es, some (codes "refused")), suc n);
  get_domain_filter = no_filter;
}

abbrev sample_changes : Changes
sample_changes = record { create = plain ∷ []; update_old = []; update_new = []; delete = [] }

serve-IsRemote_example : IsRemote Str counting counter (codes "/p") sample_changes (plain ∷ []) 0
serve-IsRemote_example =
    serve-IsRemote Str counting counter (codes "/p") endpoints-IsFaithful changes-IsFaithful
      sample_changes (plain ∷ []) 0
