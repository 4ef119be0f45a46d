-- ===== src/LoadBalancer.antt =====
-- internal/core/loadbalancer: the four balancers, and the factory that keeps one for each service.
pub mod Instance
pub mod Cycle
pub mod RoundRobin
pub mod Weighted
pub mod LeastConnections
pub mod ConsistentHash
pub mod Factory
