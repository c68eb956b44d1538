-- ===== src/Redis/Memory.antt =====
-- A Redis that keeps its view itself: it shows that the documented effects can be met together.
use ai_cyber_threat_detector.Common.{refl}
use ai_cyber_threat_detector.Redis.{
  View, Redis, view_zadd, view_zpop, view_zrem, view_expire, view_lpush, view_ltrim, view_lrem,
  view_incr, view_decr, view_set, view_del,
}

abbrev pub memory : Redis
memory = record {
  State = View;
  view = λ s. s;
  zadd = view_zadd;
  zpop = view_zpop;
  zrem = view_zrem;
  expire = view_expire;
  lpush = view_lpush;
  ltrim = view_ltrim;
  lrem = view_lrem;
  incr = view_incr;
  decr = view_decr;
  set_ex = view_set;
  del = view_del;
  view-zadd = λ k n m s. refl;
  view-zpop = λ k s. refl;
  view-zrem = λ k m s. refl;
  view-expire = λ k w s. refl;
  view-lpush = λ k x s. refl;
  view-ltrim = λ k n s. refl;
  view-lrem = λ k x s. refl;
  view-incr = λ k s. refl;
  view-decr = λ k s. refl;
  view-set_ex = λ k n w s. refl;
  view-del = λ k s. refl;
}
