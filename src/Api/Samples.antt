-- ===== src/Api/Samples.antt =====
-- The sample data of interfaces/api/seed.py: titles, sources, channels and jobs.
use mini_agent_go.Prelude.{ℕ, Option, none, some, List, [], ◌∷◌, Text, codes}
use mini_agent_go.Domain.Models.{
  TvListSource, SourceType, http_json, rss, m3u, active, JobStatus, success, failed, running,
}

pub data Category : Type 0 where
  drama news variety movie sports kids doc : Category

unfoldable pub label : Category → Text
label drama = codes "drama"
label news = codes "news"
label variety = codes "variety"
label movie = codes "movie"
label sports = codes "sports"
label kids = codes "kids"
label doc = codes "doc"

-- `_PROGRAM_TITLES`
unfoldable pub titles : Category → List Text
titles drama =
    codes "漫长的季节"
    ∷ codes "狂飙"
    ∷ codes "三体"
    ∷ codes "人世间"
    ∷ codes "梦华录"
    ∷ codes "繁花"
    ∷ codes "去有风的地方"
    ∷ codes "知否知否"
    ∷ codes "琅琊榜"
    ∷ codes "庆余年"
    ∷ []
titles news =
    codes "新闻联播"
    ∷ codes "东方时空"
    ∷ codes "焦点访谈"
    ∷ codes "新闻直播间"
    ∷ codes "国际时讯"
    ∷ codes "The World Today"
    ∷ codes "BBC News at Ten"
    ∷ codes "Sky News Tonight"
    ∷ []
titles variety =
    codes "奔跑吧"
    ∷ codes "歌手"
    ∷ codes "中国好声音"
    ∷ codes "向往的生活"
    ∷ codes "脱口秀大会"
    ∷ codes "Strictly Come Dancing"
    ∷ codes "The Voice UK"
    ∷ codes "Love Island"
    ∷ []
titles movie =
    codes "肖申克的救赎"
    ∷ codes "霸王别姬"
    ∷ codes "阿甘正传"
    ∷ codes "盗梦空间"
    ∷ codes "星际穿越"
    ∷ codes "The Dark Knight"
    ∷ codes "Inception"
    ∷ codes "Interstellar"
    ∷ codes "Pulp Fiction"
    ∷ []
titles sports =
    codes "NBA 总决赛"
    ∷ codes "欧冠决赛"
    ∷ codes "世界杯集锦"
    ∷ codes "英超第 38 轮"
    ∷ codes "中超联赛"
    ∷ codes "Premier League"
    ∷ codes "Champions League Final"
    ∷ codes "Wimbledon Highlights"
    ∷ []
titles kids =
    codes "汪汪队立大功"
    ∷ codes "小猪佩奇"
    ∷ codes "海底小纵队"
    ∷ codes "宝宝巴士"
    ∷ codes "超级飞侠"
    ∷ codes "Peppa Pig"
    ∷ codes "Paw Patrol"
    ∷ codes "Bluey"
    ∷ codes "Cocomelon"
    ∷ []
titles doc =
    codes "地球脉动"
    ∷ codes "舌尖上的中国"
    ∷ codes "河西走廊"
    ∷ codes "航拍中国"
    ∷ codes "蓝色星球"
    ∷ codes "Planet Earth"
    ∷ codes "Blue Planet II"
    ∷ codes "Our Planet"
    ∷ codes "Cosmos"
    ∷ []

-- `_build_sample_sources`
abbrev sample_source : ℕ → Text → Text → SourceType → Text → TvListSource
sample_source now id name type url = record {
  id = id;
  name = name;
  type = type;
  url = some url;
  config = [];
  headers = [];
  cron = codes "*/15 * * * *";
  priority = 5;
  status = active;
  parser = codes "auto";
  created_at = now;
  updated_at = now;
}

unfoldable pub build_sample_sources : ℕ → List TvListSource
build_sample_sources now =
    sample_source now (codes "src_demo_iqiyi") (codes "iQIYI 热播剧场") http_json
      (codes "https://demo.example.com/iqiyi/epg.json")
    ∷ sample_source now (codes "src_demo_cctv") (codes "CCTV 节目单") rss
        (codes "https://demo.example.com/cctv/schedule.xml")
    ∷ sample_source now (codes "src_demo_iptv") (codes "示例 IPTV 列表") m3u
        (codes "https://demo.example.com/iptv/playlist.m3u")
    ∷ []

pub record ChannelDef : Type 0 where
  pub id : Text
  pub name : Text
  pub category : Category

abbrev channel : Text → Text → Category → ChannelDef
channel id name category = record { id = id; name = name; category = category }

unfoldable pub channel_defs : List ChannelDef
channel_defs =
    channel (codes "ch_cctv1") (codes "CCTV-1 综合") news
    ∷ channel (codes "ch_cctv4") (codes "CCTV-4 中文国际") doc
    ∷ channel (codes "ch_zjjs") (codes "浙江卫视") drama
    ∷ channel (codes "ch_aqzws") (codes "爱情·周末") variety
    ∷ channel (codes "ch_bbc1") (codes "BBC One") drama
    ∷ channel (codes "ch_bbc2") (codes "BBC Two") doc
    ∷ channel (codes "ch_skynews") (codes "Sky News") news
    ∷ channel (codes "ch_skyarts") (codes "Sky Arts") variety
    ∷ channel (codes "ch_m3u_movie") (codes "电影频道 HD") movie
    ∷ channel (codes "ch_m3u_kids") (codes "少儿动画") kids
    ∷ channel (codes "ch_m3u_sport") (codes "体育竞技") sports
    ∷ channel (codes "ch_m3u_doc") (codes "自然纪录") doc
    ∷ []

pub record JobSpec : Type 0 where
  pub source_idx : ℕ
  pub status : JobStatus
  pub minutes_ago : ℕ
  pub fetched : ℕ
  pub saved : ℕ
  pub error : Option Text

abbrev spec : ℕ → JobStatus → ℕ → ℕ → ℕ → Option Text → JobSpec
spec source_idx status minutes_ago fetched saved error = record {
  source_idx = source_idx;
  status = status;
  minutes_ago = minutes_ago;
  fetched = fetched;
  saved = saved;
  error = error;
}

unfoldable pub job_specs : List JobSpec
job_specs =
    spec 0 success 5 142 138 none
    ∷ spec 1 success 35 96 95 none
    ∷ spec 2 success 65 312 310 none
    ∷ spec 0 failed 125 0 0 (some (codes "connection timeout after 30s"))
    ∷ spec 2 success 180 280 278 none
    ∷ spec 1 running 0 12 0 none
    ∷ []
