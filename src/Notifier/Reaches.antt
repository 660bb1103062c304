-- ===== src/Notifier/Reaches.antt =====
-- internal/notify: whom the first delivery of a notification reaches.
use pulse_pager.Alerting.Service.{NotifyMessage}
use pulse_pager.Notifier.Channels.{Event, Net, build_event, enrich}

-- The event that the providers are given.
abbrev pub event_for : Net → NotifyMessage → Event
event_for net ev = enrich net.avg_latency (build_event ev net.now)
