-- ===== src/Tests.antt =====
-- Runs of the model on concrete inputs, and each theorem at an input that meets its hypotheses.
mod Samples
mod MonitorRuns
mod AutopilotRuns
mod ChargingRuns
mod RouteRuns
mod SdkRuns
mod BusRuns
mod OrvdRuns
mod PortRuns
mod GcsRuns
mod StationRuns
mod AgroRuns
mod MissionRuns
mod LimiterRuns
mod GatewayRuns
mod TelemetryRuns
