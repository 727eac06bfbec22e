-- ===== src/Examples/Handler.antt =====
-- The theorems on internal/handler at concrete inputs.
use rtmetrics.Base.{none, codes, ◌≡◌, ◌↔◌, refl, some, [], ◌∷◌, or_else}
use rtmetrics.Base.Int64.{add64, parse_int, digits_value, parse_uint}
use rtmetrics.Base.Decimal.{format_int}
use rtmetrics.Model.{Metrics, new_counter, new_gauge}
use rtmetrics.Service
use rtmetrics.Repository.{MetricsRepository}
use rtmetrics.Storage.{MemStorage, mem_repository}
use rtmetrics.Storage.Refinement.{view, mem_repository-Implements}
use rtmetrics.Http.{Request, respond}
use rtmetrics.Api.{World, Formats}
use rtmetrics.Base.GoMap.{put, empty}
use rtmetrics.Handler.Post.{post}
use rtmetrics.Handler.Get.{get}
use rtmetrics.Handler.Updates.{updates}
use rtmetrics.Handler.ReadBack.{Answers, post-get-counter, post-get-gauge}
use rtmetrics.Handler.Refusals.{IsMalformed, post_refused_iff}
use rtmetrics.Handler.Update.{update}
use rtmetrics.Handler.Value.{value}
use rtmetrics.Handler.Json.{
  encoded_status, counter_answer, gauge_answer, update-counter, update-gauge,
}
use rtmetrics.Handler.JsonReads.{IsAnswer, with_delta, value-counter}
use rtmetrics.Repository.Contract.{SameView, add_counter, set_gauge}
use rtmetrics.Handler.Batches.{AllOrNothing, updates-AllOrNothing}
use rtmetrics.Examples.Toolkit.{
  ranges, toy_formats, request_of, audited_world, two_metrics, parse_bits,
}

abbrev repo : MetricsRepository MemStorage
repo = mem_repository ranges ranges

parsed : parse_int (codes "5") ≡ some 5
unfolding codes parse_int parse_uint digits_value
parsed = refl

parsed_bits : parse_bits (codes "5") ≡ some (record { bits = 5 })
unfolding codes parse_int parse_uint digits_value
parsed_bits = refl

-- The counter is new: 0 + 5.
post-get-counter_example :
    Answers
      (respond
        (post (Service.new repo) toy_formats (request_of "counter" "hits" "5") audited_world).0)
      (format_int (add64 (or_else ((view audited_world.store).counters "hits") 0) 5))
    × Answers
        (respond
          (get
            (Service.new repo)
            toy_formats
            (request_of "counter" "hits" "")
            (post
              (Service.new repo)
              toy_formats
              (request_of "counter" "hits" "5")
              audited_world).1).0)
        (format_int (add64 (or_else ((view audited_world.store).counters "hits") 0) 5))
post-get-counter_example =
    post-get-counter (mem_repository-Implements ranges ranges) toy_formats
      (request_of "counter" "hits" "5") (request_of "counter" "hits" "") audited_world refl 5 refl
      refl parsed

post-get-gauge_example :
    Answers
      (respond
        (post (Service.new repo) toy_formats (request_of "gauge" "temp" "5") audited_world).0)
      (format_int 5)
    × Answers
        (respond
          (get
            (Service.new repo)
            toy_formats
            (request_of "gauge" "temp" "")
            (post
              (Service.new repo)
              toy_formats
              (request_of "gauge" "temp" "5")
              audited_world).1).0)
        (format_int 5)
post-get-gauge_example =
    post-get-gauge (mem_repository-Implements ranges ranges) toy_formats
      (request_of "gauge" "temp" "5") (request_of "gauge" "temp" "") audited_world refl
      (record { bits = 5 }) refl refl parsed_bits

post_refused_iff_example :
    (((respond
          (post
            (Service.new repo)
            toy_formats
            (request_of "counter" "hits" "abc")
            audited_world).0).status
        ≡ 400)
      × ((post (Service.new repo) toy_formats (request_of "counter" "hits" "abc") audited_world).1
          ≡ audited_world))
    ↔ IsMalformed toy_formats (request_of "counter" "hits" "abc")
post_refused_iff_example =
    post_refused_iff (Service.new repo) toy_formats (request_of "counter" "hits" "abc")
      audited_world

updates-AllOrNothing_example :
    AllOrNothing view two_metrics audited_world
      (updates (Service.new repo) toy_formats (request_of "" "" "") audited_world)
updates-AllOrNothing_example =
    updates-AllOrNothing (mem_repository-Implements ranges ranges) toy_formats (request_of "" "" "")
      audited_world (new_counter "hits" 2) (new_gauge "temp" (record { bits = 7 }) ∷ []) refl refl

-- The formats decode every body to the counter.
abbrev hits : Metrics
hits = record { id = "hits"; mtype = "counter"; delta = some 2; value = none; hash = "" }

abbrev temp : Metrics
temp = record {
  id = "temp";
  mtype = "gauge";
  delta = none;
  value = some (record { bits = 7 });
  hash = "";
}

abbrev decoding : Metrics → Formats
decoding m = record toy_formats { decode_metrics = λ b. some m }

abbrev some_request : Request
some_request = request_of "" "" ""

update-counter_example :
    ((respond (update (Service.new repo) (decoding hits) some_request audited_world).0).status
      ≡ encoded_status (
          (decoding hits).encode_metrics (
            counter_answer "hits"
              (add64 (or_else ((view audited_world.store).counters "hits") 0) 2))))
    × SameView
        (view (update (Service.new repo) (decoding hits) some_request audited_world).1.store)
        (add_counter "hits" 2 (view audited_world.store))
update-counter_example =
    update-counter (mem_repository-Implements ranges ranges) (decoding hits) some_request
      audited_world hits 2 refl refl refl refl

update-gauge_example :
    ((respond (update (Service.new repo) (decoding temp) some_request audited_world).0).status
      ≡ encoded_status ((decoding temp).encode_metrics (gauge_answer "temp" (record { bits = 7 }))))
    × SameView
        (view (update (Service.new repo) (decoding temp) some_request audited_world).1.store)
        (set_gauge "temp" (record { bits = 7 }) (view audited_world.store))
update-gauge_example =
    update-gauge (mem_repository-Implements ranges ranges) (decoding temp) some_request
      audited_world temp (record { bits = 7 }) refl refl refl refl

abbrev stored_world : World MemStorage
stored_world = record audited_world {
  store = record { counters = put empty "hits" 5; gauges = put empty "temp" (record { bits = 7 }) };
}

value-counter_example :
    IsAnswer
      (with_delta (decoding hits) hits ((view stored_world.store).counters "hits"))
      (respond (value (Service.new repo) (decoding hits) some_request stored_world).0).status
      (respond (value (Service.new repo) (decoding hits) some_request stored_world).0).body
    × SameView
        (view (value (Service.new repo) (decoding hits) some_request stored_world).1.store)
        (view stored_world.store)
value-counter_example =
    value-counter (mem_repository-Implements ranges ranges) (decoding hits) some_request
      stored_world hits refl refl refl
