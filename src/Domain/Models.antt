-- ===== src/Domain/Models.antt =====
-- domain/models/*.py. Times are microseconds since the epoch, in UTC; an enum that is a `str` has
-- its text as `value`.
use mini_agent_go.Prelude.{
  ℕ, ◌≡◌, refl, Bool, Option, none, some, List, if◌then◌else◌, Text, codes, ◌==◌,
}
use mini_agent_go.Prelude.Dict.{Dict}

-- What `json.loads` gives. A number is kept as its truth value and its `str`.
mutual
  pub data Json : Type 0 where
    null : Json
    bool : Bool → Json
    number : Bool → Text → Json
    text : Text → Json
    array : Items → Json
    object : Members → Json

  pub data Items : Type 0 where
    nil : Items
    cons : Json → Items → Items

  pub data Members : Type 0 where
    end : Members
    member : Text → Json → Members → Members

-- value_objects.py
pub record Channel : Type 0 where
  pub id : Text
  pub name : Text
  pub logo_url : Option Text
  pub country : Option Text
  pub language : Option Text

pub record TimeSlot : Type 0 where
  pub start : ℕ
  pub finish : ℕ
  pub timezone : Text

pub record Tag : Type 0 where
  pub label : Text
  pub category : Text

-- program.py
pub record TvProgram : Type 0 where
  pub id : Option Text
  pub title : Text
  pub description : Option Text
  pub channel : Channel
  pub slot : TimeSlot
  pub tags : List Tag
  pub source_ids : List Text
  pub identity_key : Text
  pub created_at : ℕ
  pub updated_at : ℕ
  pub version : ℕ

-- source.py
pub data SourceType : Type 0 where
  http_json rss html_scrape m3u custom : SourceType

pub data SourceStatus : Type 0 where
  active paused disabled : SourceStatus

pub record TvListSource : Type 0 where
  pub id : Text
  pub name : Text
  pub type : SourceType
  pub url : Option Text
  pub config : Dict Json
  pub headers : Dict Text
  pub cron : Text
  pub priority : ℕ
  pub status : SourceStatus
  pub parser : Text
  pub created_at : ℕ
  pub updated_at : ℕ

-- crawl_job.py
pub data JobStatus : Type 0 where
  pending running success failed partial_failure retry : JobStatus

pub record CrawlJob : Type 0 where
  pub id : Text
  pub source_id : Text
  pub status : JobStatus
  pub started_at : ℕ
  pub finished_at : Option ℕ
  pub items_fetched : ℕ
  pub items_saved : ℕ
  pub error : Option Text
  pub trace_id : Option Text

-- health.py
pub record SourceHealth : Type 0 where
  pub source_id : Text
  pub is_alive : Bool
  pub latency_ms : Option ℕ
  pub checked_at : ℕ
  pub message : Option Text

-- user.py; a role is the text of the literal type `Role`
pub record User : Type 0 where
  pub id : Text
  pub username : Text
  pub role : Text
  pub created_at : ℕ
  pub disabled : Bool

-- the `value` of each enum member
unfoldable pub type_value : SourceType → Text
type_value http_json = codes "http_json"
type_value rss = codes "rss"
type_value html_scrape = codes "html_scrape"
type_value m3u = codes "m3u"
type_value custom = codes "custom"

unfoldable pub status_value : SourceStatus → Text
status_value active = codes "active"
status_value paused = codes "paused"
status_value disabled = codes "disabled"

unfoldable pub job_value : JobStatus → Text
job_value pending = codes "pending"
job_value running = codes "running"
job_value success = codes "success"
job_value failed = codes "failed"
job_value partial_failure = codes "partial_failure"
job_value retry = codes "retry"

-- `SourceType(v)`, `SourceStatus(v)` and `JobStatus(v)`; `none` is the `ValueError`
unfoldable pub to_type : Text → Option SourceType
to_type v =
    if v == codes "http_json"
    then some http_json
    else if v == codes "rss"
    then some rss
    else if v == codes "html_scrape"
    then some html_scrape
    else if v == codes "m3u"
    then some m3u
    else if v == codes "custom"
    then some custom
    else none

unfoldable pub to_status : Text → Option SourceStatus
to_status v =
    if v == codes "active"
    then some active
    else if v == codes "paused"
    then some paused
    else if v == codes "disabled"
    then some disabled
    else none

unfoldable pub to_job_status : Text → Option JobStatus
to_job_status v =
    if v == codes "pending"
    then some pending
    else if v == codes "running"
    then some running
    else if v == codes "success"
    then some success
    else if v == codes "failed"
    then some failed
    else if v == codes "partial_failure"
    then some partial_failure
    else if v == codes "retry"
    then some retry
    else none

pub to_type-type_value : (t : SourceType) → to_type (type_value t) ≡ some t
unfolding to_type type_value ◌==◌
to_type-type_value http_json = refl
to_type-type_value _ = refl

pub to_status-status_value : (t : SourceStatus) → to_status (status_value t) ≡ some t
unfolding to_status status_value ◌==◌
to_status-status_value active = refl
to_status-status_value _ = refl

pub to_job_status-job_value : (t : JobStatus) → to_job_status (job_value t) ≡ some t
unfolding to_job_status job_value ◌==◌
to_job_status-job_value pending = refl
to_job_status-job_value _ = refl
