-- ===== src/Delivery/Tests.antt =====
-- The properties of the delivery at concrete inputs.
use prometheus_ws_proxy_clie.Base.{
  ℕ, ◌≡◌, true, false, some, ok, err, [], List, Bytes, OwnedString, IsAllocated, codes, arith, ◌⊎◌,
}
use prometheus_ws_proxy_clie.Error.{http}
use prometheus_ws_proxy_clie.Memory.{MemoryBudget}
use prometheus_ws_proxy_clie.Memory.Response.{BudgetedResponse}
use prometheus_ws_proxy_clie.Memory.Backed.{IsBacked, backed, downgraded}
use prometheus_ws_proxy_clie.Memory.Tests.{six_of_ten, uid_of_three, body_of_two}
use prometheus_ws_proxy_clie.Protocol.Tests.{exact}
use prometheus_ws_proxy_clie.Timing.{default_timing}
use prometheus_ws_proxy_clie.Timing.Tests.{exact_transfer}
use prometheus_ws_proxy_clie.Config.{Config}
use prometheus_ws_proxy_clie.Target.{UrlLib}
use prometheus_ws_proxy_clie.Delivery.Encode.{Encoder, bounded_response_json_with_limit_and_encoder}
use prometheus_ws_proxy_clie.Delivery.Encoded.{Ends, bounded_response_json-Ends}
use prometheus_ws_proxy_clie.Delivery.Post.{WorkerContext, PostLib, post_response, deliver_by_post}
use prometheus_ws_proxy_clie.Delivery.Delivered.{Posted, Returned, handed, deliver_by_post-Returned}

-- An encoder that writes the body and nothing else.
abbrev pub body_only : Encoder
body_only r = some (exact r.body.bytes)

pub body_only_allocates :
    (r : BudgetedResponse) (s : OwnedString) → body_only r.response ≡ some s → IsAllocated s
body_only_allocates r s e = ground arith

abbrev pub small_response : BudgetedResponse
small_response = backed uid_of_three 200 body_of_two

pub small_response-IsBacked : IsBacked small_response six_of_ten
small_response-IsBacked = omega arith

bounded_response_json-Ends_example :
    Ends body_only body_only_allocates small_response small_response 100 six_of_ten
      (bounded_response_json_with_limit_and_encoder body_only small_response 100 six_of_ten)
    ⊎ Ends body_only body_only_allocates small_response
        (downgraded small_response)
        100
        six_of_ten
        (bounded_response_json_with_limit_and_encoder body_only small_response 100 six_of_ten)
bounded_response_json-Ends_example =
    bounded_response_json-Ends body_only body_only_allocates small_response 100 six_of_ten
      small_response-IsBacked

-- URLs as their paths; every post times out, while the others do nothing.
abbrev path_lib : UrlLib Bytes
path_lib = record {
  parse_url = λ url. some url;
  scheme = λ _. codes "http";
  path = λ url. url;
  clear_fragment = λ url. url;
  clear_query = λ url. url;
  set_scheme = λ _ url. some url;
  set_path = λ path _. path;
  with_segments = λ _ url. some url;
}

abbrev pub slow_lib : PostLib Bytes
slow_lib = record {
  urls = path_lib;
  serialize = λ n _. exact (codes "status=200&body=ok");
  header_value = λ value. some value;
  transfer = exact_transfer;
  status_text = λ _. codes "200";
  send = λ _. (λ n. n, err (http true));
  error_for_status = λ _. ok tt;
}

pub slow_lib_allocates :
    (n : ℕ) (pairs : List (Bytes × Bytes)) → IsAllocated (slow_lib.serialize n pairs)
slow_lib_allocates n pairs = omega arith

abbrev pub plain_config : Config
plain_config = record {
  instance' = codes "i-1";
  target = codes "http://proxy";
  resources = [];
  cf_access_enabled = false;
  cf_access_key = [];
  cf_access_secret = [];
  ec2_meta_domain = [];
}

abbrev pub plain_context : WorkerContext Bytes
plain_context = record {
  config = plain_config;
  target = record { ws_url = codes "/ws/"; response_base = codes "/" };
  protocol = 3;
  timing = default_timing;
}

-- The budget has room for the form.
abbrev pub six_of_hundred : MemoryBudget
six_of_hundred = record { limit = 100; used = 6; high_watermark = 8 }

deliver_by_post-Returned_example :
    Posted slow_lib slow_lib_allocates small_response six_of_hundred
      (post_response slow_lib plain_context small_response six_of_hundred).1
    × Returned slow_lib slow_lib_allocates small_response
        (post_response slow_lib plain_context small_response six_of_hundred).0
        (deliver_by_post slow_lib plain_context small_response six_of_hundred).0
    × ((deliver_by_post slow_lib plain_context small_response six_of_hundred).1
        ≡ handed slow_lib slow_lib_allocates small_response
            (deliver_by_post slow_lib plain_context small_response six_of_hundred).0
            (post_response slow_lib plain_context small_response six_of_hundred).1)
deliver_by_post-Returned_example =
    deliver_by_post-Returned slow_lib slow_lib_allocates plain_context small_response six_of_hundred
      (omega arith)
