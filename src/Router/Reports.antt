-- ===== src/Router/Reports.antt =====
-- router/router.go: `thStatistics`, and the texts that it builds. The rate of a count in a time
-- (`int(float64(n) / now.Sub(t).Seconds())`) and `json.MarshalIndent` are parameters.
pub mod Sorted
use xchg.Base.{
  ℕ, zero, suc, ◌+◌, ◌-◌, ◌*◌, ◌/◌, ◌%◌, ◌^◌, ◌≤◌, ◌<◌, ◌≡◌, refl, Bool, true, false, List, [], ◌∷◌,
  ◌++◌, arith, length, map, ltb, ◌==◌, if◌then◌else◌,
}
use xchg.Base.Words.{add64, sub64, word_mod, IsWord}
use xchg.Sorting.{sort_by}
use xchg.Storage.{Storage, elapsed, seconds, messages_count}
use xchg.Router.{Router, Statistics, Addresses}

-- `RouterSpeedStatistics`.
pub record Speed : Type 0 where
  pub speed_http_requests : ℕ
  pub speed_http_requests_r : ℕ
  pub speed_http_requests_w : ℕ
  pub speed_http_requests_n : ℕ
  pub speed_http_requests_ns : ℕ
  pub speed_http_requests_d : ℕ
  pub speed_http_requests_f : ℕ
  pub speed_frames_in : ℕ
  pub speed_frames_out : ℕ
  pub speed_bytes_in : ℕ
  pub speed_bytes_out : ℕ
  pub speed_bytes_k_in : ℕ
  pub speed_bytes_k_out : ℕ
  pub speed_bytes_m_in : ℕ
  pub speed_bytes_m_out : ℕ
  pub version : ℕ

-- The differences of the counters; that of `HttpRequestsS` is not taken.
unfoldable pub since : Statistics → Statistics → Statistics
since stat last = record {
  frames_in = sub64 stat.frames_in last.frames_in;
  frames_out = sub64 stat.frames_out last.frames_out;
  bytes_in = sub64 stat.bytes_in last.bytes_in;
  bytes_out = sub64 stat.bytes_out last.bytes_out;
  http_requests = sub64 stat.http_requests last.http_requests;
  http_requests_r = sub64 stat.http_requests_r last.http_requests_r;
  http_requests_w = sub64 stat.http_requests_w last.http_requests_w;
  http_requests_n = sub64 stat.http_requests_n last.http_requests_n;
  http_requests_ns = sub64 stat.http_requests_ns last.http_requests_ns;
  http_requests_d = sub64 stat.http_requests_d last.http_requests_d;
  http_requests_s = 0;
  http_requests_f = sub64 stat.http_requests_f last.http_requests_f;
}

-- `VERSION`.
abbrev pub version : ℕ
version = 24

-- The speeds, by the rate of each difference.
unfoldable pub speed_of : (ℕ → ℕ) → Statistics → Speed
speed_of rate stat = record {
  speed_http_requests = rate stat.http_requests;
  speed_http_requests_r = rate stat.http_requests_r;
  speed_http_requests_w = rate stat.http_requests_w;
  speed_http_requests_n = rate stat.http_requests_n;
  speed_http_requests_ns = rate stat.http_requests_ns;
  speed_http_requests_d = rate stat.http_requests_d;
  speed_http_requests_f = rate stat.http_requests_f;
  speed_frames_in = rate stat.frames_in;
  speed_frames_out = rate stat.frames_out;
  speed_bytes_in = rate stat.bytes_in;
  speed_bytes_out = rate stat.bytes_out;
  speed_bytes_k_in = rate stat.bytes_in / 1024;
  speed_bytes_k_out = rate stat.bytes_out / 1024;
  speed_bytes_m_in = rate stat.bytes_in / (1024 * 1024);
  speed_bytes_m_out = rate stat.bytes_out / (1024 * 1024);
  version = version;
}

pub record AddressInfo : Type 0 where
  pub address : List ℕ
  pub message_count : ℕ

pub record DebugInfo : Type 0 where
  pub address_count : ℕ
  pub next_msg_id : ℕ
  pub stat : Statistics
  pub stat_speed : Speed
  pub addresses : List AddressInfo

unfoldable pub address_infos : Addresses → List AddressInfo
address_infos [] = []
address_infos ((k, s) ∷ m) =
    record { address = k; message_count = messages_count s } ∷ address_infos m

abbrev pub address_text : AddressInfo → List ℕ
address_text a = a.address

-- What `buildDebugString` writes as JSON; its addresses are sorted by their texts.
unfoldable pub debug_info : Router → Speed → DebugInfo
debug_info c speed = record {
  address_count = length c.addresses;
  next_msg_id = c.next_id;
  stat = c.stat;
  stat_speed = speed;
  addresses = sort_by address_text (address_infos c.addresses);
}

-- `statSpeed`, `lastDebugInfo` and `lastStatInfo`.
pub record Report : Type 0 where
  pub speed : Speed
  pub last_debug_info : List ℕ
  pub last_stat_info : List ℕ

module _ (rate : ℕ → ℕ → ℕ) (debug_json : DebugInfo → List ℕ) (speed_json : Speed → List ℕ) where
  -- `buildDebugString`.
  unfoldable pub build_debug_string : Router → Speed → Report
  build_debug_string c speed = record {
    speed = speed;
    last_debug_info = debug_json (debug_info c speed);
    last_stat_info = speed_json speed;
  }

  -- `thStatistics`.
  unfoldable pub th_statistics : Router → Report → ℕ → Router × Report
  th_statistics c report now =
      if ltb (elapsed now c.stat_last_dt) (seconds 1)
      then (c, report)
      else (let speed =
            speed_of (λ n. rate n (elapsed now c.stat_last_dt)) (since c.stat c.stat_last) in
          let c' = record c { stat_last = c.stat; stat_last_dt = now } in
          (c', build_debug_string c' speed))
