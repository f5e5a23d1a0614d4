-- ===== src/Tests/Collector.antt =====
-- Runs of the agent's collector.
use servora.Prelude.{
  ==_refl, [], all_of, arith, bytes, contains_text, find, has_prefix, is_graphic, is_word,
  join_words, none, refl, some, ℕ, ◌+◌, ◌-◌, ◌<◌, ◌∷◌, ◌≡◌, ◌≤◌, text_eq, nat_eq,
}
use servora.Clock.{second}
use servora.Agent.Collector.Refresh.{
  Refreshes, begin, step, snapshotted, new_collector, snapshot, AreSingle, CollectorRun-AreSingle,
}
use servora.Agent.Collector.Counters.{
  CpuState, cpu_usage, cpu_total, cpu_idle, cpu_usage-within, cpu_usage-beyond,
}
use servora.Agent.Collector.Crontab.{cron_line, system_words, system_timer, cron_line-join_words}
use servora.Agent.Collector.Sockets.{Reading, Socket, SocketCounters, socket_key}
use servora.Agent.Collector.Sockets.Telescope.{readings, reported, final, reported_telescopes}
use servora.Tests.Data.{noon}

-- A snapshot starts the three refreshes, and the network's ends.
abbrev refreshing : Refreshes
refreshing = snapshot noon new_collector

CollectorRun-AreSingle_example : AreSingle refreshing
CollectorRun-AreSingle_example = CollectorRun-AreSingle (step begin (snapshotted noon))

-- user, nice, system, idle, iowait
abbrev sampled : CpuState
sampled = record { last_total = 100; last_idle = 60 }

cpu_usage-within_example :
    (busy : ℕ) × ((cpu_usage (80 ∷ 0 ∷ 0 ∷ 70 ∷ 0 ∷ []) sampled).0
      ≡ some (busy, cpu_total (80 ∷ 0 ∷ 0 ∷ 70 ∷ 0 ∷ []) - 100))
    × (busy + (cpu_idle (80 ∷ 0 ∷ 0 ∷ 70 ∷ 0 ∷ []) - 60)
        ≡ cpu_total (80 ∷ 0 ∷ 0 ∷ 70 ∷ 0 ∷ []) - 100)
    × (busy ≤ cpu_total (80 ∷ 0 ∷ 0 ∷ 70 ∷ 0 ∷ []) - 100)
cpu_usage-within_example =
    cpu_usage-within (80 ∷ 0 ∷ 0 ∷ 70 ∷ 0 ∷ []) sampled (omega arith)
      (unfold cpu_total in omega arith) (unfold cpu_idle in omega arith)
      (unfold cpu_total cpu_idle in omega arith)

cpu_usage-beyond_example :
    (busy : ℕ) × ((cpu_usage (100 ∷ 0 ∷ 0 ∷ 40 ∷ 10 ∷ []) sampled).0
      ≡ some (busy, cpu_total (100 ∷ 0 ∷ 0 ∷ 40 ∷ 10 ∷ []) - 100))
    × (cpu_total (100 ∷ 0 ∷ 0 ∷ 40 ∷ 10 ∷ []) - 100 < busy)
cpu_usage-beyond_example =
    cpu_usage-beyond (100 ∷ 0 ∷ 0 ∷ 40 ∷ 10 ∷ []) sampled (omega arith)
      (unfold cpu_total in omega arith) (unfold cpu_idle in omega arith) (omega arith)
      (unfold cpu_total in omega arith)

-- 17 * * * * root run-parts /etc/cron.hourly
cron_line-join_words_example :
    cron_line
      (λ path. path)
      (bytes "/etc/crontab")
      3
      (join_words (
        system_words
          (bytes "17")
          (bytes "*")
          (bytes "*")
          (bytes "*")
          (bytes "*")
          (bytes "root")
          (bytes "run-parts")
          (bytes "/etc/cron.hourly" ∷ [])))
    ≡ some (
        system_timer
          (λ path. path)
          3
          (bytes "17")
          (bytes "*")
          (bytes "*")
          (bytes "*")
          (bytes "*")
          (bytes "root")
          (bytes "run-parts")
          (bytes "/etc/cron.hourly" ∷ []))
cron_line-join_words_example =
    cron_line-join_words (λ path. path) 3 (bytes "17") (bytes "*") (bytes "*") (bytes "*")
      (bytes "*") (bytes "root") (bytes "run-parts") (bytes "/etc/cron.hourly" ∷ [])
      (unfold is_word is_graphic all_of bytes in
        (refl, (refl, (refl, (refl, (refl, (refl, (refl, (refl, tt)))))))))
      (unfold join_words contains_text has_prefix bytes in refl)
      (unfold join_words has_prefix bytes in refl) (unfold join_words has_prefix bytes in refl)

-- One socket in two polls.
abbrev reading : Reading
reading = record {
  pid_pattern = λ line. none;
  process_pattern = λ line. none;
  sent_pattern = λ line. none;
  received_pattern = λ line. none;
  number = λ digits. 0;
  split_host_port = λ value. none;
  lower = λ s. s;
}

abbrev socket : ℕ → Socket
socket rx = record {
  pid = 7;
  named = bytes "curl";
  local = bytes "10.0.0.1:5000";
  remote = bytes "192.0.2.1:443";
  rx = rx;
  tx = 40;
}

abbrev socket_counters : SocketCounters
socket_counters = (socket_key (socket 0), (100, 40)) ∷ []

reads_once : (rx : ℕ) → readings (socket_key (socket 0)) (socket rx ∷ []) ≡ (rx, 40) ∷ []
unfolding readings socket_key
reads_once rx = ground (arith, ==_refl (socket_key (socket 0)))

reported_telescopes_example :
    reported reading []
        (socket_key (socket 0))
        socket_counters
        ((noon, socket 150 ∷ []) ∷ (noon + second, socket 400 ∷ []) ∷ [])
      + 100
    ≡ (final
        (socket_key (socket 0))
        (100, 40)
        ((noon, socket 150 ∷ []) ∷ (noon + second, socket 400 ∷ []) ∷ [])).0
reported_telescopes_example =
    reported_telescopes reading [] (socket_key (socket 0)) socket_counters (100, 40)
      ((noon, socket 150 ∷ []) ∷ (noon + second, socket 400 ∷ []) ∷ [])
      (unfold find in ground (arith, ==_refl (socket_key (socket 0))))
      ((150, 40), reads_once 150, omega arith, ((400, 40), reads_once 400, omega arith, tt))
