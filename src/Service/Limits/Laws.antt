-- ===== src/Service/Limits/Laws.antt =====
-- What settings a payload of resource limits becomes, and when they count as applied.
use nouva_agent.Prelude.{◌≡◌, ◌≤◌, ◌<◌, Option, some, arith, ◌↔◌, []}
use nouva_agent.Service.Limits.{
  ResourceLimits, DockerResourceSettings, settled, to_docker_resource_settings, Applied,
  applied_mismatches,
}

-- Whatever a payload holds, the settings that come of it have at least a thousandth of a processor,
-- some memory, a swap ceiling that is not below the memory, and at least one process.
pub settings-bounds :
    (r : Option ResourceLimits) (s : DockerResourceSettings)
    → to_docker_resource_settings r ≡ settled s
    → (1000000 ≤ s.nano_cpus) × (0 < s.memory) × (s.memory ≤ s.memory_swap) × (0 < s.pids_limit)
unfolding to_docker_resource_settings
settings-bounds r s e = ground arith

-- A container counts as having applied the settings exactly when each of the four reads back as it
-- was requested.
pub applied_iff :
    (a : Applied) (requested : DockerResourceSettings)
    → (applied_mismatches a requested ≡ []) ↔ (
        (a.nano_cpus ≡ some requested.nano_cpus)
        × (a.memory ≡ some requested.memory)
        × (a.memory_swap ≡ some requested.memory_swap)
        × (a.pids_limit ≡ some requested.pids_limit))
unfolding applied_mismatches
applied_iff a requested = ground arith
